-- ===== src/Actions/Script/ConfigMaps.antt =====
-- internal/actions/script.go: `EnsureScriptConfigMap` and `captureOutput`.
use kluster_one.Prelude.{
  Bool, true, false, ◌||◌, List, [], ◌∷◌, ◌++◌, Option, none, some, Result, ok, err, Error, wrap,
  Bytes, codes, if◌then◌else◌, already_exists,
}
use kluster_one.Prelude.Int.{ℤ, pos}
use kluster_one.Prelude.Strings.{bytes_eq}
use kluster_one.Api.{NodeMaintenance, ScriptSpec, ObjectMeta}
use kluster_one.Kube.{Kube, Pod, ConfigMap, OwnerReference}

abbrev pub label_owner : Bytes
label_owner = codes "ko.io/owner"

abbrev pub default_script_key : Bytes
default_script_key = codes "script.sh"

abbrev pub max_captured_output_bytes : ℤ
max_captured_output_bytes = pos 1024000

-- `fmt.Sprintf("nm-%s-script", nm.Name)`
abbrev pub script_config_map_name : Bytes → Bytes
script_config_map_name name = codes "nm-" ++ (name ++ codes "-script")

abbrev pub owner_reference : ObjectMeta → OwnerReference
owner_reference meta = record {
  api_version = codes "ko.io/v1alpha1";
  kind = codes "NodeMaintenance";
  name = meta.name;
  uid = meta.uid;
}

-- The loop that sets `hasOwner`.
unfoldable pub has_owner : Bytes → List OwnerReference → Bool
has_owner uid [] = false
has_owner uid (o ∷ rest) = bytes_eq o.uid uid || has_owner uid rest

unfoldable pub add_owner : OwnerReference → List OwnerReference → List OwnerReference
unfolding has_owner
add_owner o refs = if has_owner o.uid refs then refs else refs ++ o ∷ []

unfoldable pub is_already_exists : Option Error → Bool
is_already_exists none = false
is_already_exists (some e) = elim e.reason [ already_exists ↦ true | _ ↦ false ]

-- The script's ConfigMap, and what the update makes of one that exists.
unfoldable pub script_config_map : ObjectMeta → ScriptSpec → Bytes → ConfigMap
script_config_map meta script runner_ns = record {
  name = script_config_map_name meta.name;
  ns = runner_ns;
  labels = (label_owner, meta.name) ∷ [];
  owner_references = owner_reference meta ∷ [];
  text = (default_script_key, script.inline) ∷ [];
  binary = [];
}

unfoldable pub merge_script : ObjectMeta → ConfigMap → ConfigMap → ConfigMap
unfolding add_owner
merge_script meta cm existing = record existing {
  text = cm.text;
  labels = cm.labels;
  owner_references = add_owner (owner_reference meta) existing.owner_references;
}

unfoldable pub output_config_map : ObjectMeta → Bytes → Bytes → Bytes → ConfigMap
output_config_map meta cm_name runner_ns body = record {
  name = cm_name;
  ns = runner_ns;
  labels = (label_owner, meta.name) ∷ [];
  owner_references = owner_reference meta ∷ [];
  text = [];
  binary = (codes "output", body) ∷ [];
}

unfoldable pub merge_output : ObjectMeta → ConfigMap → ConfigMap → ConfigMap
unfolding add_owner
merge_output meta cm existing = record existing {
  binary = cm.binary;
  labels = cm.labels;
  owner_references = add_owner (owner_reference meta) existing.owner_references;
}

module _ (K : Kube) where
  open K use {World, create_config_map, get_config_map, update_config_map, get_logs}

  -- Create; if the name is taken, get, merge and update.
  unfoldable pub create_or_update :
      ConfigMap → (ConfigMap → ConfigMap) → World → Option Error × World
  unfolding is_already_exists
  create_or_update cm merge w =
      let (e, w₁) = create_config_map cm w in
      let (r, w₂) = get_config_map cm.ns cm.name w₁ in
      if is_already_exists e
      then elim r [ err ge ↦ (some ge, w₂) | ok existing ↦ update_config_map (merge existing) w₂ ]
      else (e, w₁)

  -- `EnsureScriptConfigMap`, at the script that it requires.
  unfoldable pub ensure_script_config_map :
      NodeMaintenance → ScriptSpec → Bytes → World → Result (Bytes × Bytes) × World
  ensure_script_config_map nm script runner_ns w =
      let cm = script_config_map nm.meta script runner_ns in
      let (e, w') = create_or_update cm (merge_script nm.meta cm) w in
      elim e [
        | some e ↦ (err e, w')
        | none ↦ (ok (script_config_map_name nm.meta.name, default_script_key), w')
      ]

  -- `captureOutput`; a pod that is there.
  unfoldable pub capture_output :
      NodeMaintenance → Bytes → Bytes → Pod → World → Option Error × World
  capture_output nm runner_ns cm_name pod w =
      let (r, w₁) = get_logs pod.ns pod.name (codes "run") max_captured_output_bytes w in
      elim r [
        | err e ↦ (some (wrap (codes "open pod logs") e), w₁)
        | ok read ↦ elim read [
          | err e ↦ (some (wrap (codes "read pod logs") e), w₁)
          | ok body ↦
              let cm = output_config_map nm.meta cm_name runner_ns body in
              create_or_update cm (merge_output nm.meta cm) w₁
        ]
      ]
