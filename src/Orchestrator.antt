-- ===== src/Orchestrator.antt =====
-- internal/orchestrator/orchestrator.go. `nm` is passed by pointer: a function that changes it
-- returns the new record. `metav1.Now()` reads the clock of the world.
pub mod Nodes
pub mod Budget
pub mod Summary
pub mod Strategy
pub mod Advance
pub mod NodeStep
pub mod Progress
pub mod Resolve
pub mod Runs
pub mod Work
pub mod Termination
pub mod Fresh
pub mod Apart
pub mod Ask
pub mod Course
pub mod Admitted
use kluster_one.Prelude.{
  ℕ, ◌+◌, Bool, true, false, not, ◌&&◌, List, [], ◌∷◌, ◌++◌, map, Option, none, some, Result, ok,
  err, Error, errorf, wrap, Bytes, codes, leb, ltb, ◌==◌, if◌then◌else◌, length, ◌%◌, ◌^◌,
  get_elem?,
}
use kluster_one.Prelude.Strings.{sort}
use kluster_one.Api.{
  NodeMaintenance, NodeMaintenanceSpec, NodeMaintenanceStatus, NodeStatus, ActionSpec,
  StatusSummary, Phase, pending, in_progress, completed, failed, is_in_progress, is_completed,
  is_terminal, zero_summary, pending_node,
}
use kluster_one.Api.Targets.{summarize_targets}
use kluster_one.Kube.{Kube, Selector, everything, from_set}
use kluster_one.Actions.{Registry}
use Nodes.{
  effective_actions, effective_budget, in_flight, promote, run_actions_loop, tally, is_positive_32,
}

module _ (K : Kube) where
  open K use {World, now, list_nodes}

  -- `list_all_nodes`: the names that the server lists, sorted.
  unfoldable pub list_all_nodes : Selector → World → Result (List Bytes) × World
  list_all_nodes sel w =
      let (r, w') = list_nodes sel w in
      elim r [ err e ↦ (err e, w') | ok items ↦ (ok (sort (map (λ n. n.name) items)), w') ]

  unfoldable pub resolve_nodes : NodeMaintenanceSpec → World → Result (List Bytes) × World
  unfolding list_all_nodes
  resolve_nodes spec w =
      if spec.all_nodes then list_all_nodes everything w else elim spec.node_names [
        | _ ∷ _ ↦ (ok (sort spec.node_names), w)
        | [] ↦ elim spec.node_selector [
          | _ ∷ _ ↦ list_all_nodes (from_set spec.node_selector) w
          | [] ↦ (ok [], w)
        ]
      ]

  -- The part of `initStatus` behind `resolveNodes`.
  unfoldable pub seed : NodeMaintenance → List Bytes → ℕ → NodeMaintenance
  seed nm [] t = record nm {
    status = record nm.status { phase = completed; start_time = some t; completion_time = some t };
  }
  seed nm (n ∷ names) t = record nm {
    status = record nm.status {
      start_time = some t;
      phase = in_progress;
      nodes = nm.status.nodes ++ map (λ m. pending_node m t) (n ∷ names);
    };
  }

  -- `initStatus` behind its test: the targets column, the nodes and the time.
  unfoldable pub init_fresh : NodeMaintenance → World → NodeMaintenance × Result Bool × World
  init_fresh nm w =
      let nm' = record nm { status = record nm.status { targets = summarize_targets nm.spec } } in
      let (r, w') = resolve_nodes nm.spec w in
      elim r [ err e ↦ (nm', err e, w') | ok names ↦ (seed nm' names (now w'), ok true, w') ]

  unfoldable pub init_status : NodeMaintenance → World → NodeMaintenance × Result Bool × World
  init_status nm w = elim nm.status.nodes [ _ ∷ _ ↦ (nm, ok false, w) | [] ↦ init_fresh nm w ]

  unfoldable pub admit : NodeMaintenance → World → NodeMaintenance
  unfolding effective_budget
  admit nm w = record nm {
    status = record nm.status {
      nodes = promote (effective_budget nm) (now w) (in_flight nm.status.nodes) nm.status.nodes;
    };
  }

  -- The counts of the loop, `status.summary`, and the phase that they give.
  unfoldable pub rollup : NodeMaintenance → World → NodeMaintenance × Bool
  rollup nm w =
      let s = tally nm.status.nodes zero_summary in
      let nm' = record nm { status = record nm.status { summary = s } } in
      if s.total == 0
      then (nm', is_completed nm'.status.phase)
      else if (s.pending == 0) && (s.in_progress == 0)
      then (
        record nm' {
          status = record nm'.status {
            phase = if is_positive_32 s.failed then failed else completed;
            completion_time = elim nm'.status.completion_time [
              | none ↦ some (now w)
              | some t ↦ some t
            ];
          };
        },
        true,
      )
      else (record nm' { status = record nm'.status { phase = in_progress } }, false)

  -- `Init`
  unfoldable pub init : NodeMaintenance → World → NodeMaintenance × Result Bool × World
  init nm w =
      let (nm', r, w') = init_status nm w in
      elim r [
        | err e ↦ (nm', err (wrap (codes "init status") e), w')
        | ok true ↦ ((rollup nm' w').0, ok true, w')
        | ok false ↦ (nm', ok false, w')
      ]

  -- `runActions`: the first error of the nodes in flight.
  unfoldable pub run_actions :
      Registry K → NodeMaintenance → World → NodeMaintenance × Option Error × World
  run_actions reg nm w =
      let (ns', e, w') = run_actions_loop K reg nm nm.status.nodes w in
      (record nm { status = record nm.status { nodes = ns' } }, e, w')

  -- `Step` behind `initStatus`: whether more work remains. The error of `runActions` is only logged.
  unfoldable pub run_pass : Registry K → NodeMaintenance → World → NodeMaintenance × Bool × World
  run_pass reg nm w =
      let (nm₁, _, w₁) = run_actions reg (admit nm w) w in
      let (nm₂, done) = rollup nm₁ w₁ in (nm₂, not done, w₁)

  -- `Step`
  unfoldable pub step : Registry K → NodeMaintenance → World → NodeMaintenance × Result Bool × World
  step reg nm w =
      let (nm₁, r, w₁) = init_status nm w in
      elim r [
        | err e ↦ (nm₁, err (wrap (codes "init status") e), w₁)
        | ok _ ↦ let (nm₂, more, w₂) = run_pass reg nm₁ w₁ in (nm₂, ok more, w₂)
      ]
