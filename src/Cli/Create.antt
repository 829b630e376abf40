-- ===== src/Cli/Create.antt =====
-- internal/cli/create.go: the flags of `RunCreate` and the resource that they build.
pub mod Yaml
pub mod Apply
pub mod Selector
pub mod Targets
pub mod Plan
pub mod Applied
pub mod Admitted
pub mod Runs
use kluster_one.Prelude.{
  ℕ, zero, suc, ◌+◌, Bool, true, false, not, ◌&&◌, ◌||◌, List, [], ◌∷◌, ◌++◌, Option, none, some,
  Result, ok, err, Error, errorf, wrap, Bytes, codes, ltb, if◌then◌else◌, length, take, drop,
  is_not_found,
}
use kluster_one.Prelude.Int.{ℤ, pos, ltb_ℤ, whole_seconds}
use kluster_one.Prelude.Strings.{insert}
use kluster_one.Prelude.Spaces.{trim_space}
use kluster_one.Prelude.Split.{split, index_byte}
use kluster_one.Api.{
  NodeMaintenance, NodeMaintenanceSpec, ScriptSpec, ActionSpec, ActionType, cordon, drain, uncordon,
  script, zero_status,
}
use kluster_one.Api.Targets.{summarize_targets}
use kluster_one.Kube.{Kube}
use kluster_one.Cli.Args.{is_empty, has_help_flag, split_positional}
use kluster_one.Cli.Plugin.{Plugin}
use kluster_one.Cli.Commands.{max_inline_script_bytes, too_large, resource_line}

-- The variables that `fs.Parse` sets.
pub record CreateFlags : Type 0 where
  pub script_path : Bytes
  pub inline : Bytes
  pub all_nodes : Bool
  pub at_once : Bool
  pub max_unavailable : ℤ
  pub selector : Bytes
  pub nodes : Bytes
  pub include_cordon : Bool
  pub include_uncord : Bool
  pub include_drain : Bool
  pub no_cordon : Bool
  pub no_uncord : Bool
  pub timeout : ℤ  -- nanoseconds
  pub image : Bytes
  pub in_pod : Bool
  pub paused : Bool
  pub dry_run : Bool
  pub output_yaml : Bool

-- The names of the loop over `strings.Split(nodes, ",")`.
unfoldable pub trimmed_names : List Bytes → List Bytes
trimmed_names [] = []
trimmed_names (n ∷ ns) =
    let t = trim_space n in let rest = trimmed_names ns in if is_empty t then rest else t ∷ rest

unfoldable pub csv_names : Bytes → List Bytes
unfolding trimmed_names
csv_names nodes = if is_empty nodes then [] else trimmed_names (split nodes b',')

-- One round of the loop of `parseSelector`, on the trimmed piece.
unfoldable pub add_pair : Bytes → List (Bytes × Bytes) → List (Bytes × Bytes)
add_pair kv out = elim (index_byte kv b'=') [
  | none ↦ out
  | some zero ↦ out
  | some (suc i) ↦ insert (trim_space (take (suc i) kv)) (trim_space (drop (suc (suc i)) kv)) out
]

unfoldable pub selector_loop : List Bytes → List (Bytes × Bytes) → List (Bytes × Bytes)
unfolding add_pair
selector_loop [] out = out
selector_loop (kv ∷ kvs) out =
    let t = trim_space kv in selector_loop kvs (if is_empty t then out else add_pair t out)

unfoldable pub parse_selector : Bytes → List (Bytes × Bytes)
unfolding selector_loop
parse_selector s = selector_loop (split s b',') []

abbrev plain_action : ActionType → ActionSpec
plain_action t = record { type = t; drain_options = none }

abbrev drain_spec : ActionSpec
drain_spec = record {
  type = drain;
  drain_options =
      some
        (record { grace_period_seconds = none; timeout_seconds = none; ignore_daemon_sets = true });
}

abbrev only_if {ℓ} : {A : Type ℓ} → Bool → A → List A
only_if true a = a ∷ []
only_if false a = []

-- The four appends to `spec.Actions`.
unfoldable pub build_actions : CreateFlags → List ActionSpec
build_actions f =
    only_if f.include_cordon (plain_action cordon)
    ++ (only_if f.include_drain drain_spec
        ++ (plain_action script ∷ only_if f.include_uncord (plain_action uncordon)))

unfoldable pub build_script : Bytes → CreateFlags → ScriptSpec
build_script body f =
    let secs = whole_seconds f.timeout in
    record {
      inline = body;
      image = f.image;
      timeout_seconds = some (if ltb_ℤ (pos 0) secs then secs else pos 600);
      run_on_host = some (not f.in_pod);
      env = [];
    }

unfoldable pub build_spec : Bytes → CreateFlags → NodeMaintenanceSpec
unfolding csv_names build_actions build_script
build_spec body f =
    let names = if f.all_nodes then [] else csv_names f.nodes in
    record {
      paused = f.paused;
      all_nodes = f.all_nodes;
      node_selector =
          if not f.all_nodes && (not (is_empty f.selector) && not (ltb 0 (length names)))
          then parse_selector f.selector
          else [];
      node_names = names;
      script = some (build_script body f);
      actions = build_actions f;
      strategy = record { max_unavailable = f.max_unavailable; at_once = f.at_once };
    }

abbrev targets_annotation : Bytes
targets_annotation = codes "ko.io/targets"

-- The annotation of the targets column, on top of others.
unfoldable pub with_targets : NodeMaintenanceSpec → List (Bytes × Bytes) → List (Bytes × Bytes)
with_targets spec anns =
    let t = summarize_targets spec in if is_empty t then anns else insert targets_annotation t anns

unfoldable pub build_nm : Bytes → Bytes → CreateFlags → NodeMaintenance
unfolding build_spec with_targets
build_nm name body f =
    let spec = build_spec body f in
    record {
      meta = record { name = name; uid = []; annotations = with_targets spec [] };
      spec = spec;
      status = zero_status;
    }

-- The tests of `RunCreate` on its flags.
unfoldable pub flags_error : CreateFlags → Option Error
flags_error f =
    if not (is_empty f.script_path) && not (is_empty f.inline)
    then some (errorf (codes "--script and --inline are mutually exclusive"))
    else if is_empty f.script_path && (is_empty f.inline && not f.paused)
    then some (
        errorf (
          codes
            "no script provided: pass --script PATH or --inline BODY, or --paused to defer the script and attach it later with 'kubectl nm attach'"))
    else none

-- `--no-cordon` and `--no-uncordon` override.
unfoldable pub overridden : CreateFlags → CreateFlags
overridden f = record f {
  include_cordon = if f.no_cordon then false else f.include_cordon;
  include_uncord = if f.no_uncord then false else f.include_uncord;
}
