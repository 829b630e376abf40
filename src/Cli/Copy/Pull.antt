-- ===== src/Cli/Copy/Pull.antt =====
-- internal/cli/copy.go: `RunPull`.
use kluster_one.Prelude.{
  Bool, false, not, List, [], ◌∷◌, ◌++◌, Option, none, some, Result, ok, err, Error, errorf, wrap,
  Bytes, codes, if◌then◌else◌, length,
}
use kluster_one.Prelude.Int.{whole_seconds}
use kluster_one.Prelude.Strings.{lookup, decimal}
use kluster_one.Kube.{Kube, ConfigMap}
use kluster_one.Cli.Args.{is_empty, runner_ns}
use kluster_one.Cli.Clients.{new_clients}
use kluster_one.Cli.Plugin.{Plugin}
use kluster_one.Cli.Commands.{resource_line}
use kluster_one.Cli.Payload.{has_prefix, extract_payload}
use kluster_one.Cli.Copy.Scripts.{build_pull_script}
use kluster_one.Cli.Copy.{
  PullFlags, Ending, out_of_fuel, panics, ended, arrow, rand_suffix, create_copy_nm, clean_up,
  await, run_copy,
}

module _ (K : Kube) (P : Plugin K) where
  open K use {World, now, quote, get_nm, get_config_map}
  open P use {
    print, usage, stat, read_file, write_file, show_octal, show_hex, pad, encode_hex, encode_base64,
    decode_base64, random_bytes, create_nm, delete_nm,
  }

  abbrev output_key : Bytes
  output_key = codes "output"

  abbrev or_nil : Option Bytes → Bytes
  or_nil none = []
  or_nil (some b) = b

  -- `BinaryData["output"]`, or else `Data["output"]`.
  unfoldable pub captured : ConfigMap → Bytes
  captured cm =
      let binary = or_nil (lookup output_key cm.binary) in
      if is_empty binary then or_nil (lookup output_key cm.text) else binary

  -- `RunPull` from the writing of the file on, with mode 0o644, which is 420.
  unfoldable pub write_pulled : Bytes → Bytes → Bool → Bytes → World → Option Error × World
  write_pulled local decoded keep name w =
      let (e, w') = write_file local decoded 420 w in
      elim e [
        | some e ↦ (some (wrap (codes "write " ++ local) e), w')
        | none ↦ (
          none,
          clean_up K P keep name (
              print
                (codes "wrote "
                  ++ (decimal (length decoded) ++ (codes " bytes to " ++ (local ++ codes "\n"))))
                w'),
        )
      ]

  -- `RunPull` from the captured output on.
  unfoldable pub decode_pulled : Bytes → Bytes → Bool → Bytes → World → Ending World
  decode_pulled local logs keep name w = elim (extract_payload logs) [
    | none ↦ panics
    | some (err e) ↦ ended (some e) w
    | some (ok payload) ↦ elim (decode_base64 payload) [
      | err e ↦ ended (some (wrap (codes "decode payload") e)) w
      | ok decoded ↦ let (e, w') = write_pulled local decoded keep name w in ended e w'
    ]
  ]

  -- `RunPull` behind its wait.
  unfoldable pub finish_pull : Bytes → Bytes → Bool → Bytes → World → Ending World
  unfolding captured
  finish_pull local output_cm keep name w =
      let (r, w') = get_config_map runner_ns output_cm w in
      elim r [
        | err e ↦
            ended
              (some (
                wrap (codes "read output configmap " ++ (runner_ns ++ (codes "/" ++ output_cm))) e))
              w'
        | ok cm ↦ decode_pulled local (captured cm) keep name w'
      ]

  unfoldable pub output_name : Bytes → Bytes
  output_name name = codes "nm-" ++ (name ++ codes "-output")

  -- The end of the wait.
  unfoldable pub after_wait :
      Bytes → PullFlags → Bytes → Option (Option Error × World) → Ending World
  unfolding output_name
  after_wait local f name none = out_of_fuel
  after_wait local f name (some (some e, w)) = ended (some e) w
  after_wait local f name (some (none, w)) = finish_pull local (output_name name) f.keep name w

  -- The call of `createCopyNM`, with the annotation that asks for the output.
  unfoldable pub create_pull : Bytes → PullFlags → Bytes → World → Option Error × World
  unfolding output_name build_pull_script
  create_pull remote f name w =
      create_copy_nm K P name (build_pull_script quote remote)
        (record { all_nodes = false; selector = []; nodes_csv = f.node }) (whole_seconds f.timeout)
        ((codes "ko.io/output-configmap", output_name name) ∷ []) w

  -- `RunPull` from its clients on.
  unfoldable pub pull_named : Bytes → Bytes → PullFlags → Bytes → World → Ending World
  pull_named remote local f name w =
      let (e, w₁) = new_clients K P w in
      let (e', w₂) = create_pull remote f name w₁ in
      let w₃ =
        print
          (resource_line name (
            codes "created (pull "
            ++ (f.node ++ (codes ":" ++ (remote ++ (arrow ++ (local ++ codes ")")))))))
          w₂ in
      elim e [
        | some e ↦ ended (some e) w₁
        | none ↦ elim e' [
          | some e ↦ ended (some e) w₂
          | none ↦ after_wait local f name (await K P name f.timeout w₃)
        ]
      ]

  -- `RunPull` behind the parsing of its flags.
  unfoldable pub pull : Bytes → Bytes → PullFlags → World → Ending World
  unfolding has_prefix rand_suffix
  pull remote local f w =
      if is_empty f.node
      then ended (some (errorf (codes "--node is required for pull"))) w
      else if not (has_prefix remote (codes "/"))
      then ended (some (errorf (codes "remote path must be absolute, got " ++ quote remote))) w
      else if is_empty f.nm_name
      then pull_named remote local f (codes "kone-pull-" ++ (rand_suffix K P w).0)
          (rand_suffix K P w).1
      else pull_named remote local f f.nm_name w

  unfoldable pub run_pull :
      (List Bytes → World → Result PullFlags × World) → List Bytes → World → Ending World
  unfolding run_copy
  run_pull parse args w = run_copy K P parse (codes "pull") pull args w
