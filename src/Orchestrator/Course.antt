-- ===== src/Orchestrator/Course.antt =====
-- internal/orchestrator/orchestrator.go: a run over the names that its targets resolved to.
use kluster_one.Prelude.{
  ℕ, ◌+◌, ◌<◌, ◌^◌, ◌≡◌, refl, ap, ◌∙◌, true, List, [], ◌∷◌, map, ok, Bytes, arith, length,
  length-map, All, Aligned,
}
use kluster_one.Api.{NodeMaintenance, NodeStatus, ActionSpec, is_terminal, pending_node}
use kluster_one.Kube.{Kube}
use kluster_one.Actions.{Registry}
use kluster_one.Actions.Contract.{AllKeepProgress}
use kluster_one.Orchestrator.Nodes.{promote, in_flight, effective_budget, effective_actions}
use kluster_one.Orchestrator.NodeStep.{Tracks, NodeStep, idle, runs, ends}
use kluster_one.Orchestrator.Summary.{all_terminal, rollup_phase}
use kluster_one.Orchestrator.Progress.{
  passed, passed-NodeStep, rollup_keeps, step_seeded, init_status_empty,
}
use kluster_one.Orchestrator.Resolve.{init_ok}
use kluster_one.Orchestrator.Fresh.{Seeded}
use kluster_one.Orchestrator.Termination.{Runs, nonempty, step_work}
use kluster_one.Orchestrator.{
  admit, rollup, run_actions, run_pass, init, init_fresh, init_status, step, resolve_nodes,
}

abbrev pub node_names : List NodeStatus → List Bytes
node_names = map (λ n. n.name)

-- A run of the plan over the named nodes, in this order, that is done only if each of them is.
pub record OnCourse (plan : List ActionSpec) (names : List Bytes) (nm : NodeMaintenance)
    : Type 0 where
  pub run : Runs plan nm
  pub named : node_names nm.status.nodes ≡ names
  pub settled : is_terminal nm.status.phase ≡ true → all_terminal nm.status.nodes ≡ true

-- The end of a run: each of the named nodes, in this order, is Completed or Failed, has completed a first part
-- of the plan in order, and the whole plan if it is Completed.
pub record Finished (plan : List ActionSpec) (names : List Bytes) (nm : NodeMaintenance)
    : Type 0 where
  pub ended : is_terminal nm.status.phase ≡ true
  pub each : all_terminal nm.status.nodes ≡ true
  pub named : node_names nm.status.nodes ≡ names
  pub tracked : All (Tracks plan) nm.status.nodes

names-promote : (b t k : ℕ) (ns : List NodeStatus) → node_names (promote b t k ns) ≡ node_names ns
unfolding promote
names-promote b t k [] = refl
names-promote b t k (n ∷ ns) = ground (arith, names-promote b t k ns, names-promote b t (k + 1) ns)

names-Aligned :
    (plan : List ActionSpec) (ns ns' : List NodeStatus)
    → Aligned (NodeStep plan) ns ns'
    → node_names ns' ≡ node_names ns
names-Aligned plan [] [] h = refl
names-Aligned plan [] (y ∷ ys) h = absurd h
names-Aligned plan (x ∷ xs) [] h = absurd h
names-Aligned plan (x ∷ xs) (y ∷ ys) (s, rest) =
    let more = names-Aligned plan xs ys rest in
    elim s [
      | idle still same ↦ ground (arith, same, more)
      | runs spec flying next a ↦ ground (arith, a.0, more)
      | ends flying last n p c ↦ ground (arith, n, more)
    ]

pub names_pending :
    (t : ℕ) (names : List Bytes) → node_names (map (λ n. pending_node n t) names) ≡ names
names_pending t [] = refl
names_pending t (n ∷ names) = ap (λ ns. n ∷ ns) (names_pending t names)

module _ (K : Kube) where
  open K use {World}

  rollup_settled :
      (nm : NodeMaintenance) (w : World)
      → 0 < length nm.status.nodes
      → length nm.status.nodes < 2 ^ 31
      → let nm' = (rollup K nm w).0 in
        is_terminal nm'.status.phase ≡ true → all_terminal nm'.status.nodes ≡ true
  rollup_settled nm w some_node fits =
      let (_, _, phase, nodes) = rollup_phase K nm w some_node fits in
      λ done. rw nodes (ground (arith, phase, done))

  pub step_course :
      (reg : Registry K) (plan : List ActionSpec) (names : List Bytes) (nm : NodeMaintenance)
      (w : World)
      → AllKeepProgress K reg
      → OnCourse plan names nm
      → OnCourse plan names (step K reg nm w).0
  unfolding run_pass admit
  step_course reg plan names nm w keep c =
      let mid = passed K reg nm w in
      let w' = (run_actions K reg (admit K nm w) w).2 in
      let seeded = step_seeded K reg nm w (nonempty c.run.some_node) in
      let run' = (step_work K reg keep plan nm w c.run).0 in
      let (nodes, _, _) = rollup_keeps K mid w' in
      let out : (step K reg nm w).0 ≡ (rollup K mid w').0 = ap (λ r. r.0) seeded in
      let count = ap (λ m. length m.status.nodes) out ∙ ap length nodes in
      let settled =
        rollup_settled mid w' (omega (arith, count, run'.some_node))
          (omega (arith, count, run'.fits)) in
      let ns = nm.status.nodes in
      record {
        run = run';
        named =
            ap (λ m. node_names m.status.nodes) out
            ∙ ap node_names nodes
            ∙ names-Aligned (effective_actions nm.spec) (admit K nm w).status.nodes mid.status.nodes
                (passed-NodeStep K reg nm w keep)
            ∙ names-promote (effective_budget nm) (K.now w) (in_flight ns) ns
            ∙ c.named;
        settled = rw out settled;
      }

  init_status_ok :
      (nm : NodeMaintenance) (w : World) (names : List Bytes)
      → nm.status.nodes ≡ []
      → (resolve_nodes K nm.spec w).0 ≡ ok names
      → (init_status K nm w).1 ≡ ok true
  unfolding init_fresh
  init_status_ok nm w names empty found =
      rw (init_status_empty K nm w empty, init_fresh, found) refl

  pub init_settled :
      (nm : NodeMaintenance) (w : World) (names : List Bytes) (t : ℕ)
      → nm.status.nodes ≡ []
      → (resolve_nodes K nm.spec w).0 ≡ ok names
      → Seeded K nm (init K nm w).0 names t
      → 0 < length names
      → length names < 2 ^ 31
      → let nm' = (init K nm w).0 in
        is_terminal nm'.status.phase ≡ true → all_terminal nm'.status.nodes ≡ true
  init_settled nm w names t empty found s some_name few =
      let fine = init_status_ok nm w names empty found in
      let (nm₁, r, w₁) = init_status K nm w in
      let ran = ap (λ x. x.0) (init_ok K nm w fine) in
      let (nodes, _, _) = rollup_keeps K nm₁ w₁ in
      let count : length (init K nm w).0.status.nodes ≡ length names =
        ap length s.nodes ∙ length-map (λ n. pending_node n t) names in
      let same : length (init K nm w).0.status.nodes ≡ length nm₁.status.nodes =
        ap (λ m. length m.status.nodes) ran ∙ ap length nodes in
      rw ran (
        rollup_settled nm₁ w₁ (omega (arith, count, same, some_name))
          (omega (arith, count, same, few)))
