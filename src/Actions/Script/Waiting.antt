-- ===== src/Actions/Script/Waiting.antt =====
-- internal/actions/script.go: the fuel of `waitForPod` and of `Execute`.
use kluster_one.Prelude.{
  ℕ, zero, suc, ◌+◌, ◌-◌, ◌<◌, ◌≡◌, refl, inl, inr, Option, none, some, Result, ok, err, Error,
  errorf, wrap, codes, ◌++◌, Bytes, arith, Bool-cases, Option-cases, Result-cases,
}
use kluster_one.Prelude.Int.{pos_part-+ℤ, ℤ, pos, pos_part, ltb_ℤ, ◌+ℤ◌, pos_of_ltb_ℤ}
use kluster_one.Api.{NodeMaintenance, ScriptSpec, NodeStatus}
use kluster_one.Kube.{Kube, Node, Pod}
use kluster_one.Actions.Drain.Clock.{ClockLaws}
use kluster_one.Actions.Names.{runner_pod_name}
use kluster_one.Actions.Script.ConfigMaps.{ensure_script_config_map}
use kluster_one.Actions.Script.RunnerPod.{Script, ensure_pod}
use kluster_one.Actions.Script.{
  wait_for_pod, script_timeout, script_poll, is_terminal_pod, await_pod, script_execute, finish,
  run_script, pod_phase_name,
}

script_poll_pos : (s : Script) → (p : ℕ) × (script_poll s ≡ pos p) × (0 < p)
unfolding script_poll
script_poll_pos s = elim (Bool-cases (ltb_ℤ (pos 0) s.poll_interval)) [
  | inl positive ↦ let (n, e, h) = pos_of_ltb_ℤ s.poll_interval positive in (n, rw positive e, h)
  | inr other ↦ (5000000000, rw other, omega arith)
]

module _ (K : Kube) (clock : ClockLaws K) where
  open K use {World, now, wait, get_pod, quote, show_duration}

  wait_for_pod_returns :
      (fuel : ℕ) (ns name : Bytes) (poll : ℕ) (timeout deadline : ℤ) (w : World)
      → 0 < poll
      → pos_part deadline + 1 - now w < fuel
      → (r : Result Pod × World) × (wait_for_pod K fuel ns name (pos poll) timeout deadline w
          ≡ some r)
  unfolding wait_for_pod
  wait_for_pod_returns zero ns name poll timeout deadline w h enough = absurd (omega arith)
  wait_for_pod_returns (suc fuel) ns name poll timeout deadline w h enough =
      let w₁ = (get_pod ns name w).1 in
      let later = clock.get_pod_later ns name w in
      elim (Result-cases (get_pod ns name w).0) [
        | inr (e, failed) ↦ ((err e, w₁), rw (failed, wait_for_pod))
        | inl (p, got) ↦ elim (Bool-cases (is_terminal_pod p.phase)) [
          | inl ended ↦ ((ok p, w₁), ground arith)
          | inr running ↦ elim (Bool-cases (ltb_ℤ deadline (pos (now w₁)))) [
            | inl late ↦ (
              (
                err (
                    errorf (
                      codes "timed out after "
                      ++ (show_duration timeout
                          ++ (codes " in phase " ++ quote (pod_phase_name p.phase))))),
                w₁,
              ),
              ground arith,
            )
            | inr early ↦ elim (Option-cases (wait (pos poll) w₁).0) [
              | inr (e, cancelled) ↦ ((err e, (wait (pos poll) w₁).1), ground arith)
              | inl waited ↦
                  let (r, more) =
                    wait_for_pod_returns fuel ns name poll timeout deadline (wait (pos poll) w₁).1 h
                      (ground (arith, clock.wait_advances poll w₁ waited)) in
                  (r, ground arith)
            ]
          ]
        ]
      ]

  -- `Execute` returns: two more rounds than the timeout has nanoseconds are enough for the loop.
  await_pod_returns :
      (s : Script) (nm : NodeMaintenance) (script : ScriptSpec) (pod : Pod) (ns : NodeStatus)
      (w : World)
      → (r : NodeStatus × Option Error × World) × (await_pod K s
            (pos_part (script_timeout script) + 2)
            nm
            script
            pod
            ns
            w
          ≡ some r)
  unfolding await_pod
  await_pod_returns s nm script pod ns w =
      let timeout = script_timeout script in
      let (p, poll, some_poll) = script_poll_pos s in
      let (r, e) =
        wait_for_pod_returns (pos_part timeout + 2) pod.ns pod.name p timeout
          (pos (now w) +ℤ timeout) w some_poll (omega (arith, pos_part-+ℤ (now w) timeout)) in
      elim (Result-cases r.0) [
        | inr (e', failed) ↦ (
          (ns, some (wrap (codes "wait for pod " ++ (pod.ns ++ (codes "/" ++ pod.name))) e'), r.1),
          rw (await_pod, poll, e, failed) refl,
        )
        | inl (ended, got) ↦ (finish K s nm ended ns r.1, rw (await_pod, poll, e, got) refl)
      ]

  run_script_returns :
      (s : Script) (nm : NodeMaintenance) (script : ScriptSpec) (node : Node) (ns : NodeStatus)
      (w : World)
      → (r : NodeStatus × Option Error × World) × (run_script K s
            (pos_part (script_timeout script) + 2)
            nm
            script
            node
            ns
            w
          ≡ some r)
  unfolding run_script
  run_script_returns s nm script node ns w =
      let (_, w₁) = ensure_script_config_map K nm script s.runner_namespace w in
      elim (Result-cases (ensure_script_config_map K nm script s.runner_namespace w).0) [
        | inr (e, failed) ↦ (
          (ns, some (wrap (codes "prepare script configmap") e), w₁),
          rw (run_script, failed) refl,
        )
        | inl ((cm_name, cm_key), prepared) ↦
            let pod_name = runner_pod_name K.lower_rune nm.meta.name node.name in
            let ns' : NodeStatus = record ns { script_pod_name = pod_name } in
            let (_, w₂) = ensure_pod K s nm script node pod_name cm_name cm_key w₁ in
            elim (Result-cases (ensure_pod K s nm script node pod_name cm_name cm_key w₁).0) [
              | inr (e, failed) ↦ (
                (ns', some (wrap (codes "create runner pod") e), w₂),
                rw (run_script, prepared, failed) refl,
              )
              | inl (pod, created) ↦
                  let (r, e) = await_pod_returns s nm script pod ns' w₂ in
                  (r, rw (run_script, prepared, created) e)
            ]
      ]

  -- The rounds that are enough: two more than the timeout has nanoseconds.
  abbrev pub enough_rounds : NodeMaintenance → ℕ
  enough_rounds nm = elim nm.spec.script [
    | none ↦ 0
    | some script ↦ pos_part (script_timeout script) + 2
  ]

  -- The Script action returns: two more rounds than its timeout has nanoseconds are enough for its
  -- polling loop, for every behaviour of the API server and every poll interval, as long as the clock
  -- runs.
  pub script_execute_returns :
      (s : Script) (nm : NodeMaintenance) (node : Node) (ns : NodeStatus) (w : World)
      → (r : NodeStatus × Option Error × World) × (script_execute K s
            (enough_rounds nm)
            nm
            node
            ns
            w
          ≡ some r)
  unfolding script_execute
  script_execute_returns s nm node ns w = elim (Option-cases nm.spec.script) [
    | inl missing ↦ (
      (ns, some (errorf (codes "spec.script is required for the Script action")), w),
      simp (missing, script_execute, enough_rounds),
    )
    | inr (script, given) ↦
        simp (given, script_execute, enough_rounds) (run_script_returns s nm script node ns w)
  ]
