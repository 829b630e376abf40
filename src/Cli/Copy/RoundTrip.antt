-- ===== src/Cli/Copy/RoundTrip.antt =====
-- internal/actions/script.go with internal/cli/copy.go: a file from the runner pod's log to the disk of the
-- user who pulls it.
use kluster_one.Prelude.{◌≡◌, ◌≢◌, refl, ◌∙◌, Bool, [], ◌∷◌, none, some, ok, Bytes, codes, arith}
use kluster_one.Prelude.Strings.{lookup, bytes_eq}
use kluster_one.Api.{NodeMaintenance, NodeStatus}
use kluster_one.Kube.{Kube, Pod, ConfigMap}
use kluster_one.Actions.Script.{annot_output_cm, tail_logs, finish}
use kluster_one.Actions.Script.ConfigMaps.{max_captured_output_bytes}
use kluster_one.Actions.Script.Stored.{ConfigMapLaws, finish-Captured}
use kluster_one.Cli.Args.{runner_ns}
use kluster_one.Cli.Plugin.{Plugin}
use kluster_one.Cli.Pull.{pulled}
use kluster_one.Cli.Copy.Back.{Base64Laws, ended_as, decode_pulled_back}
use kluster_one.Cli.Copy.Pull.{output_name, captured, finish_pull, write_pulled}
use kluster_one.Manager.{Flags, script_config}

module _ (K : Kube) (P : Plugin K) (base64 : Base64Laws K P) (laws : ConfigMapLaws K) where
  open K use {World, get_config_map, get_logs}
  open P use {encode_base64}
  open laws use {stored}

  captured_binary :
      (cm : ConfigMap) (p : Bytes)
      → cm.binary ≡ (codes "output", pulled p) ∷ []
      → captured K P cm ≡ pulled p
  unfolding captured lookup bytes_eq
  captured_binary cm p binary = rw (captured, binary) refl

  output_name_given : (name : Bytes) → output_name K P name ≢ []
  unfolding output_name
  output_name_given name e = ground (arith, e)

  -- A file that is pulled comes back, from the runner pod's log to the user's disk. Take a resource that asks
  -- for its output under the name that `pull` gives it, and a runner pod whose log is what the pull script
  -- prints for the base64 text of a file. If the Script action of the manager, behind its wait for the pod,
  -- returns without an error, whether the ConfigMap was there before or not, and that ConfigMap is left alone
  -- until `pull` has waited, then `pull` goes on to write exactly this file, with the outcome of that write.
  pub pulled_file_back :
      (flags : Flags) (nm : NodeMaintenance) (pod : Pod) (ns : NodeStatus) (w w' : World)
      (local file : Bytes) (keep : Bool) (name : Bytes)
      → lookup annot_output_cm nm.meta.annotations ≡ some (output_name K P name)
      → let s = script_config flags in
        let w₁ = (tail_logs K s pod w).1 in
        (get_logs pod.ns pod.name (codes "run") max_captured_output_bytes w₁).0
          ≡ ok (ok (pulled (encode_base64 file)))
        → (finish K s nm pod ns w).1 ≡ none
        → stored w' runner_ns (output_name K P name)
          ≡ stored (finish K s nm pod ns w).2 runner_ns (output_name K P name)
        → finish_pull K P local (output_name K P name) keep name w'
          ≡ ended_as (
              write_pulled K P local file keep name
                (get_config_map runner_ns (output_name K P name) w').1)
  unfolding finish_pull
  pulled_file_back flags nm pod ns w w' local file keep name asked log fine kept =
      let p = encode_base64 file in
      let o = output_name K P name in
      let (cm, there, binary) =
        finish-Captured K laws (script_config flags) nm pod ns w o (pulled p) asked
          (output_name_given name) log fine in
      let read = laws.get_config_map_stored runner_ns o w' cm (kept ∙ there) in
      rw (finish_pull, read, captured_binary cm p binary)
        (decode_pulled_back K P local p file keep name (get_config_map runner_ns o w').1
          (base64.encode_plain file) (base64.decode_encode file))
