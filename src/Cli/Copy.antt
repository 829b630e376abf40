-- ===== src/Cli/Copy.antt =====
-- internal/cli/copy.go: `push` and `pull`.
pub mod Scripts
pub mod Push
pub mod Pull
pub mod Targets
pub mod Back
pub mod RoundTrip
pub mod Runs
pub mod Ends
use kluster_one.Prelude.{
  ℕ, suc, ◌+◌, ◌*◌, ◌/◌, Bool, true, false, not, ◌&&◌, ◌||◌, List, [], ◌∷◌, ◌++◌, Option, none,
  some, Result, ok, err, Error, errorf, wrap, Bytes, codes, ltb, if◌then◌else◌, length, take,
  already_exists,
}
use kluster_one.Prelude.Int.{ℤ, pos, ltb_ℤ, whole_seconds, pos_part}
use kluster_one.Prelude.Strings.{lookup, decimal, show_ℤ}
use kluster_one.Api.{
  NodeMaintenance, NodeMaintenanceSpec, NodeStatus, ScriptSpec, ActionSpec, ActionType, script,
  zero_status,
}
use kluster_one.Kube.{Kube, ConfigMap}
use kluster_one.Cli.Args.{is_empty, has_help_flag, runner_ns}
use kluster_one.Cli.Create.Yaml.{to_unstructured}
use kluster_one.Cli.Plugin.{Plugin, FileInfo}
use kluster_one.Cli.Commands.{resource_line}
use kluster_one.Cli.Create.{csv_names, parse_selector, with_targets}
use kluster_one.Cli.Format.{truncate}
use kluster_one.Cli.Payload.{has_prefix, extract_payload}
use kluster_one.Cli.Wait.{wait_for_nm_completion, phase_name}

-- `allNodes`, `selector` and `nodesCSV`.
pub record CopyTargets : Type 0 where
  pub all_nodes : Bool
  pub selector : Bytes
  pub nodes_csv : Bytes

pub record PushFlags : Type 0 where
  pub targets : CopyTargets
  pub mode : Bytes
  pub keep : Bool
  pub timeout : ℤ  -- nanoseconds
  pub nm_name : Bytes

pub record PullFlags : Type 0 where
  pub node : Bytes
  pub keep : Bool
  pub timeout : ℤ
  pub nm_name : Bytes

abbrev pub max_copy_bytes : ℕ
max_copy_bytes = 700 * 1024

is_taken_name : Error → Bool
is_taken_name e = elim e.reason [ already_exists ↦ true | _ ↦ false ]

copy_script : Bytes → ℤ → ScriptSpec
copy_script body secs = record {
  inline = body;
  image = codes "alpine:3.19";
  timeout_seconds = some (if ltb_ℤ (pos 0) secs then secs else pos 300);
  run_on_host = some true;
  env = [];
}

unfoldable pub copy_spec : CopyTargets → Bytes → ℤ → NodeMaintenanceSpec
unfolding copy_script
copy_spec t body secs = record {
  paused = false;
  all_nodes = t.all_nodes;
  node_selector =
      if not t.all_nodes && (is_empty t.nodes_csv && not (is_empty t.selector))
      then parse_selector t.selector
      else [];
  node_names = if t.all_nodes then [] else csv_names t.nodes_csv;
  script = some (copy_script body secs);
  actions = record { type = script; drain_options = none } ∷ [];
  strategy = record { max_unavailable = pos 0; at_once = false };
}

-- `buildCopyNM`, with the script that `createCopyNM` puts in.
unfoldable pub build_copy_nm :
    Bytes → CopyTargets → Bytes → ℤ → List (Bytes × Bytes) → NodeMaintenance
unfolding copy_spec
build_copy_nm name t body secs extra =
    let spec = copy_spec t body secs in
    record {
      meta = record { name = name; uid = []; annotations = with_targets spec extra };
      spec = spec;
      status = zero_status;
    }

-- How a command ends: the wait runs on fuel, a followed log may never end, and a slice may panic.
pub data Ending (W : Type 0) : Type 0 where
  out_of_fuel panics : Ending W
  ended : Option Error → W → Ending W

abbrev pub arrow : Bytes
arrow = 0x20 ∷ 0xe2 ∷ 0x86 ∷ 0x92 ∷ 0x20 ∷ []

module _ (K : Kube) (P : Plugin K) where
  open K use {World, now, quote, get_nm, get_config_map}
  open P use {
    print, usage, stat, read_file, write_file, show_octal, show_hex, pad, encode_hex, encode_base64,
    decode_base64, random_bytes, create_nm, delete_nm,
  }

  unfoldable pub rand_suffix : World → Bytes × World
  rand_suffix w =
      let (r, w') = random_bytes 4 w in
      elim r [ ok b ↦ (encode_hex b, w') | err e ↦ (take 8 (show_hex (now w')), w') ]

  unfoldable pub create_copy_nm :
      Bytes → Bytes → CopyTargets → ℤ → List (Bytes × Bytes) → World → Option Error × World
  unfolding is_taken_name
  create_copy_nm name body t secs extra w =
      elim (to_unstructured K P (build_copy_nm name t body secs extra)) [
        | err e ↦ (some e, w)
        | ok u ↦
            let (e, w') = create_nm u w in
            elim e [
              | none ↦ (none, w')
              | some e ↦ (
                some (
                    if is_taken_name e
                    then errorf (
                        codes "a NodeMaintenance named "
                        ++ (quote name ++ codes " already exists; pass --name to override"))
                    else wrap (codes "create NodeMaintenance") e),
                w',
              )
            ]
      ]

  -- One line of `printNodeSummary`; a missing exit code is printed as 0.
  summary_line : NodeStatus → Bytes
  unfolding truncate
  summary_line ns =
      codes "  "
      ++ (pad 32 ns.name
          ++ (codes "  "
              ++ (pad 10 (phase_name ns.phase)
                  ++ (codes "  exit="
                      ++ (show_ℤ (elim ns.script_exit_code [ none ↦ pos 0 | some c ↦ c ])
                          ++ (codes "  " ++ (truncate ns.message 60 ++ codes "\n")))))))

  print_lines : List NodeStatus → World → World
  print_lines [] w = w
  print_lines (ns ∷ more) w = print_lines more (print (summary_line ns) w)

  unfoldable pub print_node_summary : Bytes → World → Option Error × World
  unfolding print_lines summary_line
  print_node_summary name w =
      let (r, w') = get_nm name w in
      elim r [ err e ↦ (some e, w') | ok nm ↦ (none, print_lines nm.status.nodes w') ]

  -- The clean-up, whose error is dropped.
  unfoldable pub clean_up : Bool → Bytes → World → World
  clean_up keep name w = if keep then w else (delete_nm name w).1

  -- `waitForNMCompletion`, with enough fuel for its timeout.
  unfoldable pub await : Bytes → ℤ → World → Option (Option Error × World)
  await name timeout w = wait_for_nm_completion K (pos_part timeout + 2) name timeout w

  -- The entry points. `parse` is `fs.Parse` on the flags behind the two paths.
  module _ {F : Type 0} (parse : List Bytes → World → Result F × World) where
    unfoldable pub with_paths :
        Bytes → (Bytes → Bytes → F → World → Ending World) → List Bytes → World → Ending World
    with_paths subcmd run (from ∷ to ∷ rest) w =
        let (r, w') = parse rest w in elim r [ err e ↦ ended (some e) w' | ok f ↦ run from to f w' ]
    with_paths subcmd run args w =
        ended (some (errorf (codes "missing positional arguments"))) (usage subcmd w)

    unfoldable pub run_copy :
        Bytes → (Bytes → Bytes → F → World → Ending World) → List Bytes → World → Ending World
    run_copy subcmd run args w =
        if has_help_flag args then ended none (usage subcmd w) else with_paths subcmd run args w
