-- ===== src/Cli/Copy/Push.antt =====
-- internal/cli/copy.go: `RunPush` and `runCopyNM`.
use kluster_one.Prelude.{
  ◌*◌, ◌/◌, Bool, not, ◌&&◌, List, [], ◌++◌, Option, none, some, Result, ok, err, Error, errorf,
  wrap, Bytes, codes, ltb, if◌then◌else◌, length,
}
use kluster_one.Prelude.Int.{ℤ, whole_seconds}
use kluster_one.Prelude.Strings.{decimal}
use kluster_one.Kube.{Kube}
use kluster_one.Cli.Args.{is_empty}
use kluster_one.Cli.Clients.{new_clients}
use kluster_one.Cli.Plugin.{Plugin, FileInfo}
use kluster_one.Cli.Commands.{resource_line}
use kluster_one.Cli.Payload.{has_prefix}
use kluster_one.Cli.Copy.Scripts.{build_push_script}
use kluster_one.Cli.Copy.{
  CopyTargets, PushFlags, Ending, out_of_fuel, ended, max_copy_bytes, arrow, rand_suffix,
  create_copy_nm, print_node_summary, clean_up, await, run_copy,
}

module _ (K : Kube) (P : Plugin K) where
  open K use {World, now, quote, get_nm, get_config_map}
  open P use {
    print, usage, stat, read_file, write_file, show_octal, show_hex, pad, encode_hex, encode_base64,
    decode_base64, random_bytes, create_nm, delete_nm,
  }

  -- `runCopyNM` behind its wait; push always prints the nodes.
  unfoldable pub report_copy : Bytes → Bool → Option Error × World → Option Error × World
  report_copy name keep (some e, w) = (some e, (print_node_summary K P name w).1)
  report_copy name keep (none, w) =
      let (e, w') = print_node_summary K P name w in
      elim e [ some e ↦ (some e, w') | none ↦ (none, clean_up K P keep name w') ]

  -- The end of the wait.
  unfoldable pub after_copy : Bytes → Bool → Option (Option Error × World) → Ending World
  after_copy name keep none = out_of_fuel
  after_copy name keep (some r) = let (e, w) = report_copy name keep r in ended e w

  unfoldable pub run_copy_nm : Bytes → Bytes → CopyTargets → ℤ → Bool → Bytes → World → Ending World
  unfolding await
  run_copy_nm name body t timeout keep announce w =
      let (e, w₁) = new_clients K P w in
      let (e', w₂) = create_copy_nm K P name body t (whole_seconds timeout) [] w₁ in
      let w₃ = print (resource_line name (codes "created (" ++ (announce ++ codes ")"))) w₂ in
      elim e [
        | some e ↦ ended (some e) w₁
        | none ↦ elim e' [
          | some e ↦ ended (some e) w₂
          | none ↦ after_copy name keep (await K P name timeout w₃)
        ]
      ]

  -- `RunPush` from the test of the size on.
  unfoldable pub push_body : Bytes → Bytes → PushFlags → FileInfo → Bytes → World → Ending World
  unfolding rand_suffix build_push_script
  push_body local remote f info body w =
      let encoded = encode_base64 body in
      let mode = if is_empty f.mode then show_octal info.perm else f.mode in
      let (name, w') =
        if is_empty f.nm_name
        then (codes "kone-push-" ++ (rand_suffix K P w).0, (rand_suffix K P w).1)
        else (f.nm_name, w) in
      if ltb max_copy_bytes (length encoded)
      then ended
          (some (
            errorf (
              codes "file too large: "
              ++ (decimal (length body)
                  ++ (codes " raw bytes (base64 "
                      ++ (decimal (length encoded)
                          ++ (codes "). Limit is ~"
                              ++ (decimal (max_copy_bytes * 3 / 4) ++ codes " raw bytes"))))))))
          w
      else run_copy_nm name (build_push_script quote remote encoded mode) f.targets f.timeout f.keep
          (codes "push "
            ++ (local
                ++ (arrow
                    ++ (remote
                        ++ (codes " ("
                            ++ (decimal (length body)
                                ++ (codes " bytes, mode " ++ (mode ++ codes ")"))))))))
          w'

  -- `RunPush` from the reading of the file on.
  unfoldable pub push_file : Bytes → Bytes → PushFlags → World → Ending World
  push_file local remote f w =
      let (r, w₁) = stat local w in
      let (b, w₂) = read_file local w₁ in
      elim r [
        | err e ↦ ended (some (wrap (codes "stat " ++ local) e)) w₁
        | ok info ↦
            if info.is_dir
            then ended
                (some (errorf (local ++ codes " is a directory; push handles single files only")))
                w₁
            else elim b [
              | err e ↦ ended (some (wrap (codes "read " ++ local) e)) w₂
              | ok body ↦ push_body local remote f info body w₂
            ]
      ]

  -- `RunPush` behind the parsing of its flags.
  unfoldable pub push : Bytes → Bytes → PushFlags → World → Ending World
  unfolding has_prefix
  push local remote f w =
      if not f.targets.all_nodes && (is_empty f.targets.selector && is_empty f.targets.nodes_csv)
      then ended
          (some (errorf (codes "pick a target: --all-nodes, --selector k=v, or --nodes a,b,c"))) w
      else if not (has_prefix remote (codes "/"))
      then ended (some (errorf (codes "remote path must be absolute, got " ++ quote remote))) w
      else push_file local remote f w

  unfoldable pub run_push :
      (List Bytes → World → Result PushFlags × World) → List Bytes → World → Ending World
  unfolding run_copy
  run_push parse args w = run_copy K P parse (codes "push") push args w
