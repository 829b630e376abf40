-- ===== src/Actions/Script/Success.antt =====
-- internal/actions/script.go: what an `Execute` without an error tells of the runner pod.
use kluster_one.Prelude.{
  ℕ, zero, suc, ◌≡◌, refl, true, Option, none, some, ok, Bytes, arith, Option-cases, Result-cases,
  Bool-cases, inl, inr, [], ◌∷◌, ap, sym, ◌∙◌,
}
use kluster_one.Prelude.Int.{ℤ, pos, ◌+ℤ◌}
use kluster_one.Api.{NodeMaintenance, ScriptSpec, NodeStatus}
use kluster_one.Kube.{Kube, Node, Pod, PodPhase}
use kluster_one.Actions.Names.{runner_pod_name}
use kluster_one.Actions.Script.ConfigMaps.{ensure_script_config_map}
use kluster_one.Actions.Script.RunnerPod.{Script, ensure_pod}
use kluster_one.Actions.Script.{
  stamp_outcome, finish, await_pod, run_script, script_execute, wait_for_pod, script_poll,
  script_timeout, is_terminal_pod, phase_error,
}

stamp_outcome-pod_name :
    (K : Kube) (ns : NodeStatus) (exit : Option ℤ) (tail : Bytes)
    → (stamp_outcome K ns exit tail).script_pod_name ≡ ns.script_pod_name
unfolding stamp_outcome
stamp_outcome-pod_name K ns none [] = refl
stamp_outcome-pod_name K ns none (_ ∷ _) = refl
stamp_outcome-pod_name K ns (some _) [] = refl
stamp_outcome-pod_name K ns (some _) (_ ∷ _) = refl

module _ (K : Kube) where
  open K use {World, now, wait, get_pod}

  -- What `waitForPod` gives was read from the API server, in a terminal phase.
  wait_for_pod_read :
      (fuel : ℕ) (ns name : Bytes) (poll timeout deadline : ℤ) (w w' : World) (p : Pod)
      → wait_for_pod K fuel ns name poll timeout deadline w ≡ some (ok p, w')
      → (before : World) × ((get_pod ns name before).0 ≡ ok p) × (is_terminal_pod p.phase ≡ true)
  unfolding wait_for_pod
  wait_for_pod_read zero ns name poll timeout deadline w w' p h = absurd (ground arith)
  wait_for_pod_read (suc fuel) ns name poll timeout deadline w w' p h =
      let w₁ = (get_pod ns name w).1 in
      elim (Result-cases (get_pod ns name w).0) [
        | inr (e, failed) ↦ absurd (ground arith)
        | inl (q, got) ↦ elim (Bool-cases (is_terminal_pod q.phase)) [
          | inl ended ↦ let same : q ≡ p = ground arith in (w, ground arith, ground arith)
          | inr running ↦
              wait_for_pod_read fuel ns name poll timeout deadline (wait poll w₁).1 w' p
                (ground arith)
        ]
      ]

  -- The node's status says which pod ran, and that pod was read as succeeded.
  pub record RanOn (ns' : NodeStatus) (pod_ns pod_name wanted : Bytes) : Type 0 where
    pub at : World
    pub terminal : Pod
    pub read : (get_pod pod_ns pod_name at).0 ≡ ok terminal
    pub succeeded : terminal.phase ≡ PodPhase.succeeded
    pub recorded : ns'.script_pod_name ≡ wanted

  finish_succeeded :
      (s : Script) (nm : NodeMaintenance) (pod : Pod) (ns : NodeStatus) (w : World)
      → (finish K s nm pod ns w).1 ≡ none
      → pod.phase ≡ PodPhase.succeeded
  unfolding finish phase_error
  finish_succeeded s nm pod ns w h = ground arith

  finish-pod_name :
      (s : Script) (nm : NodeMaintenance) (pod : Pod) (ns : NodeStatus) (w : World)
      → (finish K s nm pod ns w).0.script_pod_name ≡ ns.script_pod_name
  unfolding finish
  finish-pod_name s nm pod ns w = ground (arith, stamp_outcome-pod_name K ns)

  -- A wait that ended well for the pod, with the status that `finish` left.
  finished-RanOn :
      (s : Script) (nm : NodeMaintenance) (pod_ns pod_name : Bytes) (terminal : Pod)
      (ns ns' : NodeStatus) (w w' before : World)
      → (get_pod pod_ns pod_name before).0 ≡ ok terminal
      → finish K s nm terminal ns w ≡ (ns', none, w')
      → RanOn ns' pod_ns pod_name ns.script_pod_name
  finished-RanOn s nm pod_ns pod_name terminal ns ns' w w' before got h = record {
    at = before;
    terminal = terminal;
    read = got;
    succeeded = finish_succeeded s nm terminal ns w (ap (λ r. r.1) h);
    recorded = sym (ap (λ r. r.0.script_pod_name) h) ∙ finish-pod_name s nm terminal ns w;
  }

  await_pod-RanOn :
      (s : Script) (fuel : ℕ) (nm : NodeMaintenance) (script : ScriptSpec) (pod : Pod)
      (ns ns' : NodeStatus) (w w' : World)
      → await_pod K s fuel nm script pod ns w ≡ some (ns', none, w')
      → RanOn ns' pod.ns pod.name ns.script_pod_name
  unfolding await_pod
  await_pod-RanOn s fuel nm script pod ns ns' w w' h =
      let deadline = pos (now w) +ℤ script_timeout script in
      elim (Option-cases
        (wait_for_pod K fuel pod.ns pod.name (script_poll s) (script_timeout script) deadline w)) [
          | inl stuck ↦ absurd (ground arith)
          | inr ((r, w₁), ended) ↦ elim (Result-cases r) [
            | inr (e, failed) ↦ absurd (ground arith)
            | inl (terminal, got) ↦
                let waited = ended ∙ ap (λ q. some (q, w₁)) got in
                let (before, read, _) =
                  wait_for_pod_read fuel pod.ns pod.name (script_poll s) (script_timeout script)
                    deadline w w₁ terminal waited in
                finished-RanOn s nm pod.ns pod.name terminal ns ns' w₁ w' before read
                  (ground (arith, waited))
          ]
        ]

  -- The script is given; `ensurePod` gave a pod for the runner's name; and that pod ran to its end.
  pub record Succeeded (s : Script) (nm : NodeMaintenance) (node : Node) (ns' : NodeStatus)
      : Type 0 where
    pub script : ScriptSpec
    pub given : nm.spec.script ≡ some script
    pub cm_name : Bytes
    pub cm_key : Bytes
    pub start : World
    pub pod : Pod
    pub ensured :
        (ensure_pod K s nm script node
          (runner_pod_name K.lower_rune nm.meta.name node.name)
          cm_name
          cm_key
          start).0
        ≡ ok pod
    pub ran : RanOn ns' pod.ns pod.name (runner_pod_name K.lower_rune nm.meta.name node.name)

  run_script-Succeeded :
      (s : Script) (fuel : ℕ) (nm : NodeMaintenance) (script : ScriptSpec) (node : Node)
      (ns ns' : NodeStatus) (w w' : World)
      → nm.spec.script ≡ some script
      → run_script K s fuel nm script node ns w ≡ some (ns', none, w')
      → Succeeded s nm node ns'
  unfolding run_script
  run_script-Succeeded s fuel nm script node ns ns' w w' given h =
      let (_, w₁) = ensure_script_config_map K nm script s.runner_namespace w in
      elim (Result-cases (ensure_script_config_map K nm script s.runner_namespace w).0) [
        | inr (e, failed) ↦ absurd (ground arith)
        | inl ((cm_name, cm_key), prepared) ↦
            let pod_name = runner_pod_name K.lower_rune nm.meta.name node.name in
            let started : NodeStatus = record ns { script_pod_name = pod_name } in
            let (_, w₂) = ensure_pod K s nm script node pod_name cm_name cm_key w₁ in
            elim (Result-cases (ensure_pod K s nm script node pod_name cm_name cm_key w₁).0) [
              | inr (e, failed) ↦ absurd (ground arith)
              | inl (pod, created) ↦ record {
                script = script;
                given = given;
                cm_name = cm_name;
                cm_key = cm_key;
                start = w₁;
                pod = pod;
                ensured = created;
                ran =
                    await_pod-RanOn s fuel nm script pod started ns' w₂ w'
                      (rw (run_script, prepared, created) at h);
              }
            ]
      ]

  -- If the Script action returns without an error, then the pod that it found or created under the
  -- runner's name was read from the API server as Succeeded, and the node's status names that pod.
  pub script_execute_succeeds :
      (s : Script) (fuel : ℕ) (nm : NodeMaintenance) (node : Node) (ns ns' : NodeStatus)
      (w w' : World)
      → script_execute K s fuel nm node ns w ≡ some (ns', none, w')
      → Succeeded s nm node ns'
  unfolding script_execute
  script_execute_succeeds s fuel nm node ns ns' w w' h = elim (Option-cases nm.spec.script) [
    | inl missing ↦ absurd (ground arith)
    | inr (script, given) ↦
        run_script-Succeeded s fuel nm script node ns ns' w w' given
          (simp (given, script_execute) at h)
  ]
