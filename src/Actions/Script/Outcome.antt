-- ===== src/Actions/Script/Outcome.antt =====
-- internal/actions/script.go: what `Execute` leaves in the node's status.
use kluster_one.Prelude.{
  ℕ, ◌≡◌, refl, Option, none, some, Error, Bytes, arith, Option-cases, Result-cases, inl, inr, [],
  ◌∷◌,
}
use kluster_one.Prelude.Int.{ℤ, pos, ◌+ℤ◌}
use kluster_one.Api.{NodeMaintenance, ScriptSpec, NodeStatus}
use kluster_one.Kube.{Kube, Node, Pod}
use kluster_one.Actions.{Action}
use kluster_one.Actions.Contract.{KeepsProgress}
use kluster_one.Actions.Drain.Clock.{ClockLaws}
use kluster_one.Actions.Names.{runner_pod_name}
use kluster_one.Actions.Script.ConfigMaps.{ensure_script_config_map}
use kluster_one.Actions.Script.RunnerPod.{Script, ensure_pod}
use kluster_one.Actions.Script.Waiting.{script_execute_returns}
use kluster_one.Actions.Script.{
  stamp_outcome, finish, await_pod, run_script, script_execute, wait_for_pod, script_poll,
  script_timeout,
}

-- The three fields that say how far a node is.
abbrev Kept : NodeStatus → NodeStatus → Type 0
Kept before after =
    (after.name ≡ before.name)
    × (after.phase ≡ before.phase)
    × (after.completed_actions ≡ before.completed_actions)

stamp_outcome-Kept :
    (K : Kube) (ns : NodeStatus) (exit : Option ℤ) (tail : Bytes)
    → Kept ns (stamp_outcome K ns exit tail)
unfolding stamp_outcome
stamp_outcome-Kept K ns none [] = (refl, refl, refl)
stamp_outcome-Kept K ns none (_ ∷ _) = (refl, refl, refl)
stamp_outcome-Kept K ns (some _) [] = (refl, refl, refl)
stamp_outcome-Kept K ns (some _) (_ ∷ _) = (refl, refl, refl)

module _ (K : Kube) where
  open K use {World, now}

  finish-Kept :
      (s : Script) (nm : NodeMaintenance) (pod : Pod) (ns : NodeStatus) (w : World)
      → Kept ns (finish K s nm pod ns w).0
  unfolding finish
  finish-Kept s nm pod ns w = ground (arith, stamp_outcome-Kept K ns)

  await_pod-Kept :
      (s : Script) (fuel : ℕ) (nm : NodeMaintenance) (script : ScriptSpec) (pod : Pod)
      (ns : NodeStatus) (w : World) (r : NodeStatus × Option Error × World)
      → await_pod K s fuel nm script pod ns w ≡ some r
      → Kept ns r.0
  unfolding await_pod
  await_pod-Kept s fuel nm script pod ns w r h =
      elim (Option-cases (
        wait_for_pod K fuel pod.ns pod.name (script_poll s) (script_timeout script)
          (pos (now w) +ℤ script_timeout script) w)) [
            | inl stuck ↦ absurd (ground arith)
            | inr (q, ended) ↦ elim (Result-cases q.0) [
              | inr (e, failed) ↦ ground arith
              | inl (terminal, got) ↦ ground (arith, finish-Kept s nm terminal ns q.1)
            ]
          ]

  run_script-Kept :
      (s : Script) (fuel : ℕ) (nm : NodeMaintenance) (script : ScriptSpec) (node : Node)
      (ns : NodeStatus) (w : World) (r : NodeStatus × Option Error × World)
      → run_script K s fuel nm script node ns w ≡ some r
      → Kept ns r.0
  unfolding run_script
  run_script-Kept s fuel nm script node ns w r h =
      let (_, w₁) = ensure_script_config_map K nm script s.runner_namespace w in
      elim (Result-cases (ensure_script_config_map K nm script s.runner_namespace w).0) [
        | inr (e, failed) ↦ ground arith
        | inl ((cm_name, cm_key), prepared) ↦
            let pod_name = runner_pod_name K.lower_rune nm.meta.name node.name in
            let ns' : NodeStatus = record ns { script_pod_name = pod_name } in
            let (_, w₂) = ensure_pod K s nm script node pod_name cm_name cm_key w₁ in
            elim (Result-cases (ensure_pod K s nm script node pod_name cm_name cm_key w₁).0) [
              | inr (e, failed) ↦ ground arith
              | inl (pod, created) ↦
                  await_pod-Kept s fuel nm script pod ns' w₂ r
                    (rw (run_script, prepared, created) at h)
            ]
      ]

  script_execute-Kept :
      (s : Script) (fuel : ℕ) (nm : NodeMaintenance) (node : Node) (ns : NodeStatus) (w : World)
      (r : NodeStatus × Option Error × World)
      → script_execute K s fuel nm node ns w ≡ some r
      → Kept ns r.0
  unfolding script_execute
  script_execute-Kept s fuel nm node ns w r h = elim (Option-cases nm.spec.script) [
    | inl missing ↦ ground arith
    | inr (script, given) ↦
        run_script-Kept s fuel nm script node ns w r (simp (given, script_execute) at h)
  ]

  -- The action, with the fuel that is enough.
  unfoldable pub script_action : ClockLaws K → Script → Action K
  script_action clock s nm node ns spec w = (script_execute_returns K clock s nm node ns w).0

  script_action-Kept :
      (clock : ClockLaws K) (s : Script) (nm : NodeMaintenance) (node : Node) (ns : NodeStatus)
      (w : World)
      → Kept ns (script_execute_returns K clock s nm node ns w).0.0
  script_action-Kept clock s nm node ns w =
      let (r, e) = script_execute_returns K clock s nm node ns w in
      script_execute-Kept s _ nm node ns w r e

  pub script-KeepsProgress :
      (clock : ClockLaws K) (s : Script) → KeepsProgress K (script_action clock s)
  unfolding script_action
  script-KeepsProgress clock s = record {
    keeps_name = λ nm node ns spec w. (script_action-Kept clock s nm node ns w).0;
    keeps_phase = λ nm node ns spec w. (script_action-Kept clock s nm node ns w).1;
    keeps_completed = λ nm node ns spec w. (script_action-Kept clock s nm node ns w).2;
  }
