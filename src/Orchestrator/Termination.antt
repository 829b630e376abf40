-- ===== src/Orchestrator/Termination.antt =====
-- internal/orchestrator/orchestrator.go: the end of a run.
use kluster_one.Prelude.{
  ℕ, ◌+◌, ◌-◌, ◌*◌, ◌≤◌, ◌<◌, ◌^◌, ◌≡◌, ◌≢◌, sym, ap, ◌∙◌, true, false, List, [], ◌∷◌, arith, ok,
  length, All, Aligned, subst, length_of_Aligned, ◌⊎◌,
}
use kluster_one.Api.{NodeMaintenance, NodeStatus, ActionSpec, is_terminal}
use kluster_one.Kube.{Kube}
use kluster_one.Actions.{Registry}
use kluster_one.Actions.Contract.{AllKeepProgress}
use kluster_one.Orchestrator.Nodes.{effective_actions, effective_budget, in_flight}
use kluster_one.Orchestrator.NodeStep.{NodeStep, Tracks}
use kluster_one.Orchestrator.Budget.{in_flight-admit, effective_budget_pos}
use kluster_one.Orchestrator.Summary.{all_terminal, rollup_phase}
use kluster_one.Orchestrator.Progress.{
  passed, passed-NodeStep, passed-Tracks, passed-spec, rollup_keeps, step_seeded, admit-Tracks,
}
use kluster_one.Orchestrator.{admit, run_actions, run_pass, step}
use kluster_one.Orchestrator.Runs.{steps}
use kluster_one.Orchestrator.Work.{
  total_work, total_work-Aligned, total_work-promote, total_work-le, all_terminal_of_none,
  none_of_all_terminal, all_terminal_of_work, length-promote,
}

-- A run of the plan that has nodes.
pub record Runs (plan : List ActionSpec) (nm : NodeMaintenance) : Type 0 where
  pub planned : effective_actions nm.spec ≡ plan
  pub some_node : 0 < length nm.status.nodes
  pub fits : length nm.status.nodes < 2 ^ 31
  pub tracked : All (Tracks plan) nm.status.nodes

pub nonempty : {ns : List NodeStatus} → 0 < length ns → ns ≢ []
nonempty h e = omega (arith, ap length e)

module _ (K : Kube) (reg : Registry K) (keep : AllKeepProgress K reg) where
  open K use {World}

  abbrev pub remaining : List ActionSpec → NodeMaintenance → ℕ
  remaining plan nm = total_work (length plan) nm.status.nodes

  admit_work :
      (plan : List ActionSpec) (nm : NodeMaintenance) (w : World)
      → (remaining plan (admit K nm w) ≤ remaining plan nm)
        × (length (admit K nm w).status.nodes ≡ length nm.status.nodes)
  unfolding admit
  admit_work plan nm w =
      let ns = nm.status.nodes in
      (
        total_work-promote (length plan) (effective_budget nm) (K.now w) (in_flight ns) ns,
        length-promote (effective_budget nm) (K.now w) (in_flight ns) ns,
      )

  -- `admit` puts a node in flight unless every node is done.
  some_in_flight :
      (plan : List ActionSpec) (nm : NodeMaintenance) (w : World)
      → Runs plan nm
      → (0 < in_flight (admit K nm w).status.nodes) ⊎ (remaining plan nm ≡ 0)
  some_in_flight plan nm w r = ground (
    arith,
    in_flight-admit K nm w,
    effective_budget_pos nm r.some_node,
    all_terminal_of_none plan nm.status.nodes r.tracked,
    none_of_all_terminal (length plan) nm.status.nodes,
  )

  passed-Aligned :
      (plan : List ActionSpec) (nm : NodeMaintenance) (w : World)
      → effective_actions nm.spec ≡ plan
      → Aligned (NodeStep plan) (admit K nm w).status.nodes (passed K reg nm w).status.nodes
  passed-Aligned plan nm w e =
      subst (λ p. Aligned (NodeStep p) (admit K nm w).status.nodes (passed K reg nm w).status.nodes)
        e (passed-NodeStep K reg nm w keep)

  passed_work :
      (plan : List ActionSpec) (nm : NodeMaintenance) (w : World)
      → Runs plan nm
      → remaining plan (passed K reg nm w) ≤ remaining plan nm - 1
  passed_work plan nm w r =
      let admitted =
        subst (λ p. All (Tracks p) (admit K nm w).status.nodes) r.planned
          (admit-Tracks K nm w
            (subst (λ p. All (Tracks p) nm.status.nodes) (sym r.planned) r.tracked)) in
      omega (
        arith,
        total_work-Aligned plan (admit K nm w).status.nodes _ (passed-Aligned plan nm w r.planned)
            admitted,
        (admit_work plan nm w).0,
        some_in_flight plan nm w r,
      )

  passed-Runs :
      (plan : List ActionSpec) (nm : NodeMaintenance) (w : World)
      → Runs plan nm
      → Runs plan (passed K reg nm w)
  passed-Runs plan nm w r =
      let same =
        length_of_Aligned (NodeStep plan) (admit K nm w).status.nodes _
          (passed-Aligned plan nm w r.planned) in
      let kept = (admit_work plan nm w).1 in
      record {
        planned = ap effective_actions (passed-spec K reg nm w keep) ∙ r.planned;
        some_node = omega (arith, r.some_node);
        fits = omega (arith, r.fits);
        tracked =
            subst (λ p. All (Tracks p) (passed K reg nm w).status.nodes) r.planned
              (passed-Tracks K reg nm w keep
                (subst (λ p. All (Tracks p) nm.status.nodes) (sym r.planned) r.tracked));
      }

  -- A Step leaves a run of the plan with less work, unless none was left.
  pub step_work :
      (plan : List ActionSpec) (nm : NodeMaintenance) (w : World)
      → Runs plan nm
      → let nm' = (step K reg nm w).0 in
        Runs plan nm' × (remaining plan nm' ≤ remaining plan nm - 1)
  unfolding run_pass
  step_work plan nm w r =
      let (nodes, spec, _) =
        rollup_keeps K (passed K reg nm w) (run_actions K reg (admit K nm w) w).2 in
      let runs' = passed-Runs plan nm w r in
      rw (step_seeded K reg nm w (nonempty r.some_node)) (
        record {
          planned = ap effective_actions spec ∙ runs'.planned;
          some_node = rw nodes runs'.some_node;
          fits = rw nodes runs'.fits;
          tracked = rw nodes runs'.tracked;
        },
        rw nodes (passed_work plan nm w r),
      )

  steps_work :
      (plan : List ActionSpec) (changes : List (World → World)) (nm : NodeMaintenance) (w : World)
      → Runs plan nm
      → let nm' = (steps K reg changes nm w).0 in
        Runs plan nm' × (remaining plan nm' ≤ remaining plan nm - length changes)
  unfolding steps
  steps_work plan [] nm w r = (r, omega arith)
  steps_work plan (change ∷ more) nm w r =
      let (nm', _, w') = step K reg nm (change w) in
      let (runs', less) = step_work plan nm (change w) r in
      let (runs'', rest) = steps_work plan more nm' w' runs' in (runs'', omega arith)

  -- The Step of a run with no work left reports the end.
  pub last_step :
      (plan : List ActionSpec) (nm : NodeMaintenance) (w : World)
      → Runs plan nm
      → remaining plan nm ≡ 0
      → let (nm', more, _) = step K reg nm w in
        (more ≡ ok false)
        × (is_terminal nm'.status.phase ≡ true)
        × (all_terminal nm'.status.nodes ≡ true)
  unfolding run_pass
  last_step plan nm w r e =
      let runs' = passed-Runs plan nm w r in
      let done =
        all_terminal_of_work plan (passed K reg nm w).status.nodes runs'.tracked
          (omega (arith, passed_work plan nm w r)) in
      let w' = (run_actions K reg (admit K nm w) w).2 in
      let (reported, _, phase, nodes) =
        rollup_phase K (passed K reg nm w) w' runs'.some_node runs'.fits in
      rw (step_seeded K reg nm w (nonempty r.some_node)) (ground arith, ground arith, rw nodes done)

  -- A run ends. Take a run with nodes whose statuses fit the plan. Whatever the cluster does between
  -- the Steps and however the actions answer, after as many Steps as there are nodes times two more than
  -- the planned actions, the next Step asks for no further one, every node is Completed or Failed, and so
  -- is the run. (The registered actions leave a node's progress alone, and the spec does not change.)
  pub steps_end :
      (plan : List ActionSpec) (changes : List (World → World)) (nm : NodeMaintenance) (w : World)
      → Runs plan nm
      → length nm.status.nodes * (length plan + 2) ≤ length changes
      → let (nm₁, w₁) = steps K reg changes nm w in
        let (nm₂, more, _) = step K reg nm₁ w₁ in
        (more ≡ ok false)
        × (is_terminal nm₂.status.phase ≡ true)
        × (all_terminal nm₂.status.nodes ≡ true)
  steps_end plan changes nm w r enough =
      let (runs', less) = steps_work plan changes nm w r in
      last_step plan (steps K reg changes nm w).0 (steps K reg changes nm w).1 runs'
        (omega (arith, total_work-le (length plan) nm.status.nodes))
