-- ===== src/Cli/Copy/Back.antt =====
-- internal/cli/copy.go: what `pull` writes, from what the controller captured.
use kluster_one.Prelude.{◌≡◌, refl, Bool, Option, ok, Error, Bytes, All}
use kluster_one.Prelude.Strings.{lookup, bytes_eq}
use kluster_one.Api.{ObjectMeta}
use kluster_one.Kube.{Kube}
use kluster_one.Actions.Script.ConfigMaps.{output_config_map}
use kluster_one.Cli.Args.{runner_ns}
use kluster_one.Cli.Plugin.{Plugin}
use kluster_one.Cli.Pull.{IsPlain, pulled, extract_payload-pulled}
use kluster_one.Cli.Copy.{Ending, ended}
use kluster_one.Cli.Copy.Pull.{output_name, captured, decode_pulled, finish_pull, write_pulled}

-- What encoding/base64 documents: its text is of letters, digits and "+/=", and decoding undoes encoding.
pub record Base64Laws (K : Kube) (P : Plugin K) : Type 0 where
  pub encode_plain : (b : Bytes) → All IsPlain (P.encode_base64 b)
  pub decode_encode : (b : Bytes) → P.decode_base64 (P.encode_base64 b) ≡ ok b

abbrev pub ended_as : {W : Type 0} → Option Error × W → Ending W
ended_as (e, w) = ended e w

module _ (K : Kube) (P : Plugin K) where
  open K use {World, get_config_map}
  open P use {encode_base64, decode_base64}

  captured-output_config_map :
      (meta : ObjectMeta) (cm_name p : Bytes)
      → captured K P (output_config_map meta cm_name runner_ns (pulled p)) ≡ pulled p
  unfolding captured output_config_map lookup bytes_eq
  captured-output_config_map meta cm_name p = refl

  pub decode_pulled_back :
      (local p decoded : Bytes) (keep : Bool) (name : Bytes) (w : World)
      → All IsPlain p
      → decode_base64 p ≡ ok decoded
      → decode_pulled K P local (pulled p) keep name w
        ≡ ended_as (write_pulled K P local decoded keep name w)
  unfolding decode_pulled
  decode_pulled_back local p decoded keep name w plain fine =
      rw (decode_pulled, extract_payload-pulled p plain, fine) refl

  -- The file comes back. Where the output ConfigMap that `pull` reads is the one that the controller makes
  -- of what the pull script prints for the base64 text of a file, `pull` goes on to write exactly this
  -- file, with the outcome of that write.
  pub finish_pull_back :
      (laws : Base64Laws K P) (meta : ObjectMeta) (local file : Bytes) (keep : Bool) (name : Bytes)
      (w : World)
      → let cm =
          output_config_map meta (output_name K P name) runner_ns (pulled (encode_base64 file)) in
        let (r, w') = get_config_map runner_ns (output_name K P name) w in
        r ≡ ok cm
        → finish_pull K P local (output_name K P name) keep name w
          ≡ ended_as (write_pulled K P local file keep name w')
  unfolding finish_pull
  finish_pull_back laws meta local file keep name w read =
      let p = encode_base64 file in
      let w' = (get_config_map runner_ns (output_name K P name) w).1 in
      rw (finish_pull, read, captured-output_config_map meta (output_name K P name) p)
        (decode_pulled_back local p file keep name w' (laws.encode_plain file)
          (laws.decode_encode file))
