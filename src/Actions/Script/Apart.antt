-- ===== src/Actions/Script/Apart.antt =====
-- internal/actions/script.go: the Script action writes none of the NodeMaintenance resources.
use kluster_one.Prelude.{
  ℕ, zero, suc, codes, ◌≡◌, ◌∙◌, inl, inr, Option, some, Result, Error, Bytes, arith, Option-cases,
  Result-cases,
}
use kluster_one.Prelude.Int.{ℤ, pos, ◌+ℤ◌}
use kluster_one.Api.{NodeMaintenance, NodeStatus, ScriptSpec}
use kluster_one.Kube.{Kube, Node, Pod, ConfigMap}
use kluster_one.Actions.Apart.{Apart, KeepsView}
use kluster_one.Actions.Drain.Clock.{ClockLaws}
use kluster_one.Actions.Names.{runner_pod_name}
use kluster_one.Actions.Script.ConfigMaps.{
  create_or_update, ensure_script_config_map, capture_output, script_config_map, merge_script,
  output_config_map, merge_output, max_captured_output_bytes,
}
use kluster_one.Actions.Script.RunnerPod.{Script, ensure_pod, build_pod}
use kluster_one.Actions.Script.Outcome.{script_action}
use kluster_one.Actions.Script.Waiting.{script_execute_returns, enough_rounds}
use kluster_one.Actions.Script.{
  wait_for_pod, tail_logs, log_tail_limit, gc_pod, finish, await_pod, run_script, script_execute,
  script_poll, script_timeout, output_cm,
}

module _ (K : Kube) (A : Type 0) (view : K.World → A) (apart : Apart K A view) where
  open K use {World, now, wait, get_pod, create_pod, get_config_map, create_config_map, get_logs}

  create_or_update_keeps :
      (cm : ConfigMap) (merge : ConfigMap → ConfigMap) (w : World)
      → view (create_or_update K cm merge w).1 ≡ view w
  unfolding create_or_update
  create_or_update_keeps cm merge w =
      let w₁ = (create_config_map cm w).1 in
      let w₂ = (get_config_map cm.ns cm.name w₁).1 in
      let created = apart.create_config_map cm w in
      let read = apart.get_config_map cm.ns cm.name w₁ in
      elim (Result-cases (get_config_map cm.ns cm.name w₁).0) [
        | inr (e, failed) ↦ ground (arith, created, read, failed)
        | inl (existing, got) ↦
            ground (arith, created, read, got, apart.update_config_map (merge existing) w₂)
      ]

  pub ensure_script_config_map_keeps :
      (nm : NodeMaintenance) (script : ScriptSpec) (runner_ns : Bytes) (w : World)
      → view (ensure_script_config_map K nm script runner_ns w).1 ≡ view w
  unfolding ensure_script_config_map
  ensure_script_config_map_keeps nm script runner_ns w =
      let cm = script_config_map nm.meta script runner_ns in
      ground (arith, create_or_update_keeps cm (merge_script nm.meta cm) w)

  capture_output_keeps :
      (nm : NodeMaintenance) (runner_ns cm_name : Bytes) (pod : Pod) (w : World)
      → view (capture_output K nm runner_ns cm_name pod w).1 ≡ view w
  unfolding capture_output
  capture_output_keeps nm runner_ns cm_name pod w =
      let (r, w₁) = get_logs pod.ns pod.name (codes "run") max_captured_output_bytes w in
      let read = apart.get_logs pod.ns pod.name (codes "run") max_captured_output_bytes w in
      elim (Result-cases r) [
        | inr (e, failed) ↦ ground (arith, read, failed)
        | inl (opened, got) ↦ elim (Result-cases opened) [
          | inr (e, failed) ↦ ground (arith, read, got, failed)
          | inl (body, got') ↦
              let cm = output_config_map nm.meta cm_name runner_ns body in
              ground
                (arith, read, got, got', create_or_update_keeps cm (merge_output nm.meta cm) w₁)
        ]
      ]

  tail_logs_keeps : (s : Script) (pod : Pod) (w : World) → view (tail_logs K s pod w).1 ≡ view w
  unfolding tail_logs
  tail_logs_keeps s pod w =
      ground (arith, apart.get_logs pod.ns pod.name (codes "run") (log_tail_limit s) w)

  gc_pod_keeps : (s : Script) (pod : Pod) (w : World) → view (gc_pod K s pod w) ≡ view w
  unfolding gc_pod
  gc_pod_keeps s pod w = ground (arith, apart.delete_pod pod.ns pod.name w)

  finish_keeps :
      (s : Script) (nm : NodeMaintenance) (pod : Pod) (ns : NodeStatus) (w : World)
      → view (finish K s nm pod ns w).2 ≡ view w
  unfolding finish
  finish_keeps s nm pod ns w =
      let w₁ = (tail_logs K s pod w).1 in
      let w₂ = (capture_output K nm s.runner_namespace (output_cm K nm) pod w₁).1 in
      ground (
        arith,
        tail_logs_keeps s pod w,
        capture_output_keeps nm s.runner_namespace (output_cm K nm) pod w₁,
        gc_pod_keeps s pod w₁,
        gc_pod_keeps s pod w₂,
      )

  wait_for_pod_keeps :
      (fuel : ℕ) (ns name : Bytes) (poll timeout deadline : ℤ) (w : World) (r : Result Pod × World)
      → wait_for_pod K fuel ns name poll timeout deadline w ≡ some r
      → view r.1 ≡ view w
  unfolding wait_for_pod
  wait_for_pod_keeps zero ns name poll timeout deadline w r h = absurd (ground arith)
  wait_for_pod_keeps (suc fuel) ns name poll timeout deadline w r h =
      let w₁ = (get_pod ns name w).1 in
      let w₂ = (wait poll w₁).1 in
      ground (
        arith,
        h,
        apart.get_pod ns name w,
        apart.wait poll w₁,
        wait_for_pod_keeps fuel ns name poll timeout deadline w₂ r,
      )

  ensure_pod_keeps :
      (s : Script) (nm : NodeMaintenance) (script : ScriptSpec) (node : Node)
      (pod_name cm_name cm_key : Bytes) (w : World)
      → view (ensure_pod K s nm script node pod_name cm_name cm_key w).1 ≡ view w
  unfolding ensure_pod
  ensure_pod_keeps s nm script node pod_name cm_name cm_key w =
      let w₁ = (get_pod s.runner_namespace pod_name w).1 in
      let pod = build_pod K s nm script node pod_name cm_name cm_key in
      ground (
        arith,
        apart.get_pod s.runner_namespace pod_name w,
        apart.create_pod pod w₁,
        apart.get_pod s.runner_namespace pod_name (create_pod pod w₁).1,
      )

  await_pod_keeps :
      (s : Script) (fuel : ℕ) (nm : NodeMaintenance) (script : ScriptSpec) (pod : Pod)
      (ns : NodeStatus) (w : World) (r : NodeStatus × Option Error × World)
      → await_pod K s fuel nm script pod ns w ≡ some r
      → view r.2 ≡ view w
  unfolding await_pod
  await_pod_keeps s fuel nm script pod ns w r h =
      let deadline = pos (now w) +ℤ script_timeout script in
      elim (Option-cases
        (wait_for_pod K fuel pod.ns pod.name (script_poll s) (script_timeout script) deadline w)) [
          | inl stuck ↦ absurd (ground arith)
          | inr (q, ended) ↦
              let waited =
                wait_for_pod_keeps fuel pod.ns pod.name (script_poll s) (script_timeout script)
                  deadline w q ended in
              elim (Result-cases q.0) [
                | inr (e, failed) ↦ ground (arith, waited)
                | inl (terminal, got) ↦ ground (arith, waited, finish_keeps s nm terminal ns q.1)
              ]
        ]

  run_script_keeps :
      (s : Script) (fuel : ℕ) (nm : NodeMaintenance) (script : ScriptSpec) (node : Node)
      (ns : NodeStatus) (w : World) (r : NodeStatus × Option Error × World)
      → run_script K s fuel nm script node ns w ≡ some r
      → view r.2 ≡ view w
  unfolding run_script
  run_script_keeps s fuel nm script node ns w r h =
      let (_, w₁) = ensure_script_config_map K nm script s.runner_namespace w in
      let rendered = ensure_script_config_map_keeps nm script s.runner_namespace w in
      elim (Result-cases (ensure_script_config_map K nm script s.runner_namespace w).0) [
        | inr (e, failed) ↦ ground (arith, rendered)
        | inl ((cm_name, cm_key), prepared) ↦
            let pod_name = runner_pod_name K.lower_rune nm.meta.name node.name in
            let ns' : NodeStatus = record ns { script_pod_name = pod_name } in
            let (_, w₂) = ensure_pod K s nm script node pod_name cm_name cm_key w₁ in
            let ensured = ensure_pod_keeps s nm script node pod_name cm_name cm_key w₁ in
            elim (Result-cases (ensure_pod K s nm script node pod_name cm_name cm_key w₁).0) [
              | inr (e, failed) ↦ ground (arith, rendered, ensured)
              | inl (pod, created) ↦
                  await_pod_keeps s fuel nm script pod ns' w₂ r
                    (rw (run_script, prepared, created) at h)
                  ∙ ensured
                  ∙ rendered
            ]
      ]

  script_execute_keeps :
      (s : Script) (fuel : ℕ) (nm : NodeMaintenance) (node : Node) (ns : NodeStatus) (w : World)
      (r : NodeStatus × Option Error × World)
      → script_execute K s fuel nm node ns w ≡ some r
      → view r.2 ≡ view w
  unfolding script_execute
  script_execute_keeps s fuel nm node ns w r h = elim (Option-cases nm.spec.script) [
    | inl missing ↦ ground arith
    | inr (script, given) ↦
        run_script_keeps s fuel nm script node ns w r (simp (given, script_execute) at h)
  ]

  pub script-KeepsView :
      (clock : ClockLaws K) (s : Script) → KeepsView K A view (script_action K clock s)
  unfolding script_action
  script-KeepsView clock s nm node ns spec w =
      let (r, e) = script_execute_returns K clock s nm node ns w in
      script_execute_keeps s (enough_rounds K clock nm) nm node ns w r e
