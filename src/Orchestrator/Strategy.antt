-- ===== src/Orchestrator/Strategy.antt =====
-- internal/orchestrator/orchestrator.go: the strategy's budget over a run.
use kluster_one.Prelude.{
  ℕ, ◌≤◌, ◌≡◌, refl, ap, ◌∙◌, sym, inl, inr, List, [], ◌∷◌, map, Result-cases, List-cases, Bytes,
  arith, length, Aligned, length_of_Aligned,
}
use kluster_one.Api.{NodeMaintenance, NodeStatus, ActionSpec, pending_node}
use kluster_one.Kube.{Kube}
use kluster_one.Actions.{Registry}
use kluster_one.Actions.Contract.{AllKeepProgress}
use kluster_one.Orchestrator.Nodes.{in_flight, effective_budget, effective_actions}
use kluster_one.Orchestrator.NodeStep.{NodeStep, idle, runs, ends}
use kluster_one.Orchestrator.Budget.{in_flight-admit}
use kluster_one.Orchestrator.Progress.{
  passed, passed-NodeStep, passed-spec, rollup_keeps, init_status_seeded, init_status_empty,
}
use kluster_one.Orchestrator.Runs.{steps}
use kluster_one.Orchestrator.Work.{length-promote}
use kluster_one.Orchestrator.{
  admit, rollup, run_actions, run_pass, step, init_status, init_fresh, seed, resolve_nodes,
}

-- The nodes in flight are within the budget.
abbrev pub WithinBudget : NodeMaintenance → Type 0
WithinBudget nm = in_flight nm.status.nodes ≤ effective_budget nm

-- A pass puts no node in flight that was not.
in_flight-Aligned :
    (plan : List ActionSpec) (ns ns' : List NodeStatus)
    → Aligned (NodeStep plan) ns ns'
    → in_flight ns' ≤ in_flight ns
in_flight-Aligned plan [] [] h = omega arith
in_flight-Aligned plan [] (y ∷ ys) h = absurd h
in_flight-Aligned plan (x ∷ xs) [] h = absurd h
in_flight-Aligned plan (x ∷ xs) (y ∷ ys) (s, rest) =
    let more = in_flight-Aligned plan xs ys rest in
    elim s [
      | idle still same ↦ ground (arith, more)
      | runs spec flying next a ↦ ground (arith, more)
      | ends flying last n p c ↦ ground (arith, more)
    ]

-- The budget is a function of the strategy and the number of nodes.
effective_budget-cong :
    (nm nm' : NodeMaintenance)
    → nm'.spec ≡ nm.spec
    → length nm'.status.nodes ≡ length nm.status.nodes
    → effective_budget nm' ≡ effective_budget nm
unfolding effective_budget
effective_budget-cong nm nm' s l = ground arith

module _ (K : Kube) (reg : Registry K) (keep : AllKeepProgress K reg) where
  open K use {World}

  admit_within :
      (nm : NodeMaintenance) (w : World)
      → WithinBudget nm
      → in_flight (admit K nm w).status.nodes ≤ effective_budget nm
  admit_within nm w h = omega (arith, in_flight-admit K nm w)

  passed_keeps :
      (nm : NodeMaintenance) (w : World)
      → (in_flight (passed K reg nm w).status.nodes ≤ in_flight (admit K nm w).status.nodes)
        × (effective_budget (passed K reg nm w) ≡ effective_budget nm)
  unfolding admit
  passed_keeps nm w =
      let ns = nm.status.nodes in
      let steps = passed-NodeStep K reg nm w keep in
      let plan = effective_actions nm.spec in
      let same = length_of_Aligned (NodeStep plan) (admit K nm w).status.nodes _ steps in
      let kept = length-promote (effective_budget nm) (K.now w) (in_flight ns) ns in
      (
        in_flight-Aligned plan (admit K nm w).status.nodes _ steps,
        effective_budget-cong nm (passed K reg nm w) (passed-spec K reg nm w keep)
            (sym same ∙ kept),
      )

  run_pass_within :
      (nm : NodeMaintenance) (w : World) → WithinBudget nm → WithinBudget (run_pass K reg nm w).0
  unfolding run_pass
  run_pass_within nm w h =
      let after = passed K reg nm w in
      let w' = (run_actions K reg (admit K nm w) w).2 in
      let (nodes, spec, _) = rollup_keeps K after w' in
      let (fewer, budget) = passed_keeps nm w in
      let budget' = effective_budget-cong after (rollup K after w').0 spec (ap length nodes) in
      omega (arith, fewer, budget, budget', admit_within nm w h, ap in_flight nodes)

  none_pending : (names : List Bytes) (t : ℕ) → in_flight (map (λ m. pending_node m t) names) ≡ 0
  none_pending [] t = refl
  none_pending (n ∷ names) t = none_pending names t

  seed_none :
      (nm : NodeMaintenance) (names : List Bytes) (t : ℕ)
      → nm.status.nodes ≡ []
      → in_flight (seed K nm names t).status.nodes ≡ 0
  unfolding seed
  seed_none nm [] t h = rw h refl
  seed_none nm (n ∷ names) t h = rw h (none_pending names t)

  init_fresh_none :
      (nm : NodeMaintenance) (w : World)
      → nm.status.nodes ≡ []
      → in_flight (init_fresh K nm w).0.status.nodes ≡ 0
  unfolding init_fresh
  init_fresh_none nm w h = elim (Result-cases (resolve_nodes K nm.spec w).0) [
    | inr (e, failed) ↦ rw (failed, init_fresh) (ap in_flight h)
    | inl (names, found) ↦ rw (found, init_fresh) (seed_none _ names _ h)
  ]

  init_status_within :
      (nm : NodeMaintenance) (w : World) → WithinBudget nm → WithinBudget (init_status K nm w).0
  init_status_within nm w h = elim (List-cases nm.status.nodes) [
    | inr (x, xs, e) ↦ rw (init_status_seeded K nm w (ground arith)) h
    | inl none_yet ↦
        rw (init_status_empty K nm w none_yet) (omega (arith, init_fresh_none nm w none_yet))
  ]

  step_within :
      (nm : NodeMaintenance) (w : World) → WithinBudget nm → WithinBudget (step K reg nm w).0
  unfolding step
  step_within nm w h =
      let (nm₁, r, w₁) = init_status K nm w in
      let within = init_status_within nm w h in
      elim (Result-cases r) [
        | inr (e, failed) ↦ rw (failed, step) within
        | inl (b, fine) ↦ rw (fine, step) (run_pass_within nm₁ w₁ within)
      ]

  -- The budget holds throughout a run. If no more nodes are in flight than the strategy allows (MaxUnavailable,
  -- 1 if that is not positive, or all nodes if AtOnce), then after any number of Steps no more are,
  -- whatever the cluster does in between and however the actions answer. A fresh resource has none in
  -- flight. (The registered actions leave a node's progress alone.)
  pub steps-WithinBudget :
      (changes : List (World → World)) (nm : NodeMaintenance) (w : World)
      → WithinBudget nm
      → WithinBudget (steps K reg changes nm w).0
  unfolding steps
  steps-WithinBudget [] nm w h = h
  steps-WithinBudget (change ∷ more) nm w h =
      steps-WithinBudget more _ (step K reg nm (change w)).2 (step_within nm (change w) h)
