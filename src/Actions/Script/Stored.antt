-- ===== src/Actions/Script/Stored.antt =====
-- internal/actions/script.go: what `captureOutput` leaves stored.
use kluster_one.Prelude.{
  ◌≡◌, ◌≢◌, refl, sym, subst, ◌∙◌, inl, inr, [], ◌∷◌, Option, none, some, ok, Bytes, codes, arith,
  Bool-cases, Option-cases, Result-cases, List-cases,
}
use kluster_one.Prelude.Strings.{lookup}
use kluster_one.Api.{NodeMaintenance, NodeStatus}
use kluster_one.Kube.{Kube, Pod, ConfigMap}
use kluster_one.Actions.Script.ConfigMaps.{
  is_already_exists, create_or_update, capture_output, output_config_map, merge_output,
  max_captured_output_bytes,
}
use kluster_one.Actions.Script.RunnerPod.{Script}
use kluster_one.Actions.Script.{annot_output_cm, output_cm, tail_logs, gc_pod, finish}

-- What the API server documents of ConfigMaps: a read gives the stored object and stores nothing, a creation
-- or an update that succeeds stores the object that was sent, and the deletion of a pod stores none.
pub record ConfigMapLaws (K : Kube) : Type 0 where
  pub stored : K.World → Bytes → Bytes → Option ConfigMap
  pub get_config_map_stored :
      (ns n : Bytes) (w : K.World) (cm : ConfigMap)
      → stored w ns n ≡ some cm
      → (K.get_config_map ns n w).0 ≡ ok cm
  pub get_config_map_named :
      (ns n : Bytes) (w : K.World) (cm : ConfigMap)
      → (K.get_config_map ns n w).0 ≡ ok cm
      → (cm.ns ≡ ns) × (cm.name ≡ n)
  pub create_config_map_stores :
      (cm : ConfigMap) (w : K.World)
      → (K.create_config_map cm w).0 ≡ none
      → stored (K.create_config_map cm w).1 cm.ns cm.name ≡ some cm
  pub update_config_map_stores :
      (cm : ConfigMap) (w : K.World)
      → (K.update_config_map cm w).0 ≡ none
      → stored (K.update_config_map cm w).1 cm.ns cm.name ≡ some cm
  pub delete_pod_keeps :
      (ns n : Bytes) (w : K.World) (ns' n' : Bytes)
      → stored (K.delete_pod ns n w) ns' n' ≡ stored w ns' n'

module _ (K : Kube) (laws : ConfigMapLaws K) where
  open K use {World, get_logs, get_config_map, create_config_map, update_config_map}
  open laws use {stored}

  -- The output is stored there, as the only binary entry.
  abbrev pub Captured : Bytes → Bytes → Bytes → World → Type 0
  Captured ns name body w =
      (cm : ConfigMap) × (stored w ns name ≡ some cm) × (cm.binary ≡ (codes "output", body) ∷ [])

  -- Creating or updating, in the namespace and under the name of the new ConfigMap.
  create_or_update-Captured :
      (nm : NodeMaintenance) (cm_name runner_ns body : Bytes) (w : World)
      → let cm = output_config_map nm.meta cm_name runner_ns body in
        (create_or_update K cm (merge_output nm.meta cm) w).0 ≡ none
        → Captured runner_ns cm_name body (create_or_update K cm (merge_output nm.meta cm) w).1
  unfolding create_or_update output_config_map merge_output
  create_or_update-Captured nm cm_name runner_ns body w fine =
      let cm = output_config_map nm.meta cm_name runner_ns body in
      let (e, w₁) = create_config_map cm w in
      let (r, w₂) = get_config_map runner_ns cm_name w₁ in
      elim (Bool-cases (is_already_exists e)) [
        | inr free ↦
            let created : e ≡ none = ground (arith, fine, free) in
            (cm, rw (create_or_update, free) (laws.create_config_map_stores cm w created), refl)
        | inl taken ↦ elim (Result-cases r) [
          | inr (lost, failed) ↦ absurd (ground (arith, fine, taken, failed))
          | inl (existing, got) ↦
              let merged = merge_output nm.meta cm existing in
              let updated : (update_config_map merged w₂).0 ≡ none =
                ground (arith, fine, taken, got) in
              let (same_ns, same_name) =
                laws.get_config_map_named runner_ns cm_name w₁ existing got in
              let there = laws.update_config_map_stores merged w₂ updated in
              (
                merged,
                rw (create_or_update, taken, got)
                    (subst (λ n. stored (update_config_map merged w₂).1 runner_ns n ≡ some merged)
                      same_name
                      (subst
                        (λ s. stored (update_config_map merged w₂).1 s existing.name ≡ some merged)
                        same_ns there)),
                refl,
              )
        ]
      ]

  capture_output-Captured :
      (nm : NodeMaintenance) (runner_ns cm_name body : Bytes) (pod : Pod) (w : World)
      → (get_logs pod.ns pod.name (codes "run") max_captured_output_bytes w).0 ≡ ok (ok body)
      → (capture_output K nm runner_ns cm_name pod w).0 ≡ none
      → Captured runner_ns cm_name body (capture_output K nm runner_ns cm_name pod w).1
  unfolding capture_output
  capture_output-Captured nm runner_ns cm_name body pod w read fine =
      rw (capture_output, read)
        (create_or_update-Captured nm cm_name runner_ns body _ (rw (capture_output, read) at fine))

  gc_pod-Captured :
      (s : Script) (pod : Pod) (ns name body : Bytes) (w : World)
      → Captured ns name body w
      → Captured ns name body (gc_pod K s pod w)
  unfolding gc_pod
  gc_pod-Captured s pod ns name body w (cm, there, binary) =
      let kept = laws.delete_pod_keeps pod.ns pod.name w ns name in
      (cm, ground (arith, there, kept), binary)

  -- The Script action, behind its wait for the pod, on a resource whose annotation asks for the output: if
  -- it returns without an error, what it read of the pod's log is stored under that name.
  pub finish-Captured :
      (s : Script) (nm : NodeMaintenance) (pod : Pod) (ns : NodeStatus) (w : World)
      (cm_name body : Bytes)
      → lookup annot_output_cm nm.meta.annotations ≡ some cm_name
      → cm_name ≢ []
      → let w₁ = (tail_logs K s pod w).1 in
        (get_logs pod.ns pod.name (codes "run") max_captured_output_bytes w₁).0 ≡ ok (ok body)
        → (finish K s nm pod ns w).1 ≡ none
        → Captured s.runner_namespace cm_name body (finish K s nm pod ns w).2
  unfolding finish
  finish-Captured s nm pod ns w cm_name body asked named read fine =
      let w₁ = (tail_logs K s pod w).1 in
      let o = output_cm K nm in
      let w₂ = (capture_output K nm s.runner_namespace o pod w₁).1 in
      let name : o ≡ cm_name = rw (output_cm, asked) refl in
      elim (List-cases o) [
        | inl unnamed ↦ absurd (named (sym name ∙ unnamed))
        | inr (c, more, given) ↦
            elim (Option-cases (capture_output K nm s.runner_namespace o pod w₁).0) [
              | inr (e, failed) ↦ absurd (ground (arith, fine, given, failed))
              | inl captured ↦
                  let here =
                    capture_output-Captured nm s.runner_namespace o body pod w₁ read captured in
                  let last : (finish K s nm pod ns w).2 ≡ gc_pod K s pod w₂ =
                    ground (arith, given, captured) in
                  subst (Captured s.runner_namespace cm_name body) (sym last) (
                    subst (λ n. Captured s.runner_namespace n body (gc_pod K s pod w₂)) name
                      (gc_pod-Captured s pod s.runner_namespace o body w₂ here))
            ]
      ]
