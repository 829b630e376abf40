-- ===== src/Cli/Create/Yaml.antt =====
-- internal/cli/create.go: `writeYAML` and `toUnstructured`.
use kluster_one.Prelude.{Option, none, map, some, Result, ok, err, Error}
use kluster_one.Api.{
  NodeMaintenance, NodeMaintenanceSpec, ScriptSpec, ActionType, ActionSpec, EnvVar, unlisted,
}
use kluster_one.Kube.{Kube}
use kluster_one.Cli.Plugin.{Plugin}

module _ (K : Kube) (P : Plugin K) where
  open K use {World}
  open P use {marshal_yaml, yaml_to_json, unmarshal_json, write_text, json_text, json_map}

  abbrev pub carry_type : ActionType → ActionType
  carry_type (unlisted s) = unlisted (json_text s)
  carry_type t = t

  abbrev pub carry_action : ActionSpec → ActionSpec
  carry_action a = record a { type = carry_type a.type }

  abbrev pub carry_env : EnvVar → EnvVar
  carry_env e = record e { name = json_text e.name; value = json_text e.value }

  abbrev pub carry_script : Option ScriptSpec → Option ScriptSpec
  carry_script none = none
  carry_script (some s) = some (record s {
    inline = json_text s.inline;
    image = json_text s.image;
    env = map carry_env s.env;
  })

  -- A specification as JSON carries it: the texts as package encoding/json makes them, the rest as it is.
  unfoldable pub carried_spec : NodeMaintenanceSpec → NodeMaintenanceSpec
  carried_spec spec = record spec {
    node_selector = json_map spec.node_selector;
    node_names = map json_text spec.node_names;
    script = carry_script spec.script;
    actions = map carry_action spec.actions;
  }

  unfoldable pub write_yaml : NodeMaintenance → World → Option Error × World
  write_yaml nm w = elim (marshal_yaml nm) [ err e ↦ (some e, w) | ok b ↦ write_text b w ]

  unfoldable pub to_unstructured : NodeMaintenance → Result NodeMaintenance
  to_unstructured nm = elim (marshal_yaml nm) [
    | err e ↦ err e
    | ok b ↦ elim (yaml_to_json b) [ err e ↦ err e | ok j ↦ unmarshal_json j ]
  ]
