-- ===== src/Examples/RunsTests.antt =====
-- The orchestrator and the controller on the small cluster.
use kluster_one.Prelude.{
  ℕ, ap, sym, err, ◌+◌, ◌-◌, ◌≤◌, min, max, ◌≡◌, refl, inl, inr, Bool, true, false, [], ◌∷◌, ◌++◌,
  map, none, some, Result, ok, arith, All, length, take, drop, if◌then◌else◌,
}
use kluster_one.Prelude.Strings.{bytes_eq, bytes_le, sort, insert_sorted}
use kluster_one.Prelude.Sorting.{IsSorted}
use kluster_one.Api.Targets.{summarize_targets, max_len}
use kluster_one.Api.Columns.{summarize_targets_fits}
use kluster_one.Api.{
  NodeMaintenance, is_terminal, in_progress, completed, failed, zero_summary, pending_node,
}
use kluster_one.Orchestrator.Nodes.{
  promote, tally, run_actions_loop, in_flight, effective_budget, effective_actions,
}
use kluster_one.Orchestrator.NodeStep.{Tracks}
use kluster_one.Orchestrator.Progress.{pending_node-Tracks}
use kluster_one.Orchestrator.Summary.{all_terminal, any_failed, counts, rollup_phase}
use kluster_one.Orchestrator.Budget.{waiting, start, in_flight-admit, admit_in_order}
use kluster_one.Orchestrator.Resolve.{init_seeds_resolved}
use kluster_one.Orchestrator.Strategy.{WithinBudget, steps-WithinBudget}
use kluster_one.Api.Schema.{
  IsAdmitted, admits_spec, admits_actions, admits_script, admits_strategy, admits_phase,
}
use kluster_one.Orchestrator.Admitted.{steps_fresh-IsAdmitted}
use kluster_one.Orchestrator.Runs.{steps, steps_fresh-Tracks}
use kluster_one.Orchestrator.Termination.{Runs, steps_end}
use kluster_one.Orchestrator.{
  admit, rollup, run_actions, run_pass, init_status, step, init, resolve_nodes,
}
use kluster_one.Controller.Idle.{reconcile-AtRest}
use kluster_one.Controller.Watched.{Settled, reconcile-Settled}
use kluster_one.Controller.{Reconciler, setup, persist, drive, proceed, reconcile_nm, reconcile}
use kluster_one.Manager.{manager_registry, manager_registry-AllKeepProgress, manager_reconciler}
use kluster_one.Examples.Cluster.{Cluster, toy, toy_clock}
use kluster_one.Examples.Ticks.{ticks}
use kluster_one.Examples.Fixtures.{fresh, seeded, cluster, flags, plan, name_a, name_b}

seeded_within : WithinBudget seeded
unfolding effective_budget
seeded_within = omega arith

pub seeded-Runs : Runs plan seeded
unfolding effective_actions
seeded-Runs = record {
  planned = refl;
  some_node = omega arith;
  fits = omega arith;
  tracked = pending_node-Tracks plan (name_a ∷ name_b ∷ []) 5;
}

steps_end_example :
    let reg = manager_registry toy toy_clock flags in
    let (nm₁, w₁) = steps toy reg (ticks 10) seeded cluster in
    let (nm₂, more, _) = step toy reg nm₁ w₁ in
    (more ≡ ok false)
    × (is_terminal nm₂.status.phase ≡ true)
    × (all_terminal nm₂.status.nodes ≡ true)
steps_end_example =
    steps_end toy (manager_registry toy toy_clock flags)
      (manager_registry-AllKeepProgress toy toy_clock flags) plan (ticks 10) seeded cluster
      seeded-Runs (omega arith)

steps_fresh-Tracks_example :
    All
      (Tracks (effective_actions fresh.spec))
      (steps toy (manager_registry toy toy_clock flags) (ticks 3) fresh cluster).0.status.nodes
steps_fresh-Tracks_example =
    steps_fresh-Tracks toy (manager_registry toy toy_clock flags) (ticks 3) fresh cluster
      (manager_registry-AllKeepProgress toy toy_clock flags) refl

steps-WithinBudget_example :
    WithinBudget (steps toy (manager_registry toy toy_clock flags) (ticks 3) seeded cluster).0
steps-WithinBudget_example =
    steps-WithinBudget toy (manager_registry toy toy_clock flags)
      (manager_registry-AllKeepProgress toy toy_clock flags) (ticks 3) seeded cluster seeded_within

in_flight-admit_example :
    (in_flight (admit toy seeded cluster).status.nodes
      ≡ in_flight seeded.status.nodes
        + min
            (effective_budget seeded - in_flight seeded.status.nodes)
            (waiting seeded.status.nodes))
    × (in_flight (admit toy seeded cluster).status.nodes
        ≤ max (in_flight seeded.status.nodes) (effective_budget seeded))
in_flight-admit_example = in_flight-admit toy seeded cluster

admit_in_order_example :
    (m : ℕ) × (admit toy seeded cluster ≡ record seeded {
      status = record seeded.status {
        nodes =
            map (start (toy.now cluster)) (take m seeded.status.nodes)
            ++ drop m seeded.status.nodes;
      };
    })
admit_in_order_example = admit_in_order toy seeded cluster

rollup_phase_example :
    let ns = seeded.status.nodes in
    let (nm', done) = rollup toy seeded cluster in
    (done ≡ all_terminal ns)
    × (nm'.status.summary ≡ counts ns zero_summary)
    × (nm'.status.phase
        ≡ (if all_terminal ns then (if any_failed ns then failed else completed) else in_progress))
    × (nm'.status.nodes ≡ ns)
rollup_phase_example = rollup_phase toy seeded cluster (omega arith) (omega arith)

abbrev paused_of : Result NodeMaintenance → Bool
paused_of (ok nm) = nm.spec.paused
paused_of (err e) = true

abbrev paused : Cluster
paused = record cluster {
  resource = some (record seeded { spec = record seeded.spec { paused = true } });
}

reconcile-AtRest_example :
    reconcile toy
      (record (manager_reconciler toy toy_clock flags) { registry = [] })
      fresh.meta.name
      paused
    ≡ reconcile toy (manager_reconciler toy toy_clock flags) fresh.meta.name paused
unfolding bytes_eq
reconcile-AtRest_example =
    reconcile-AtRest toy (manager_reconciler toy toy_clock flags) [] fresh.meta.name paused
      (λ nm got. inr (inl (ap paused_of (sym got))))

abbrev controller : Reconciler toy
controller = manager_reconciler toy toy_clock flags

-- A run whose nodes are all done, and no script.
abbrev finishing : Cluster
finishing = record cluster {
  resource = some (record seeded {
    spec = record seeded.spec { script = none };
    status = record seeded.status {
      nodes = record (pending_node name_a 5) { phase = completed } ∷ [];
    };
  });
}

reconcile-Settled_example :
    let name = fresh.meta.name in
    Settled toy
      (toy.get_nm name finishing).0
      (reconcile toy (setup toy controller) name finishing).2
unfolding bytes_eq reconcile reconcile_nm proceed drive persist step init_status run_pass rollup
    tally run_actions run_actions_loop admit promote
reconcile-Settled_example = reconcile-Settled toy controller fresh.meta.name finishing refl refl

init_seeds_resolved_example :
    let (nm', r, w') = init toy fresh cluster in
    (r ≡ ok true)
    × (nm'.status.nodes ≡ map (λ n. pending_node n (toy.now w')) (name_a ∷ name_b ∷ []))
    × IsSorted (name_a ∷ name_b ∷ [])
unfolding resolve_nodes sort insert_sorted bytes_le
init_seeds_resolved_example = init_seeds_resolved toy fresh cluster (name_a ∷ name_b ∷ []) refl refl

summarize_targets_fits_example : length (summarize_targets fresh.spec) ≤ max_len + 2
summarize_targets_fits_example = summarize_targets_fits fresh.spec

fresh-IsAdmitted : IsAdmitted fresh
unfolding admits_spec admits_actions admits_script admits_strategy admits_phase
fresh-IsAdmitted = record { spec = refl; phase = refl; nodes = tt }

steps_fresh-IsAdmitted_example :
    IsAdmitted (steps toy (manager_registry toy toy_clock flags) (ticks 3) fresh cluster).0
steps_fresh-IsAdmitted_example =
    steps_fresh-IsAdmitted toy (manager_registry toy toy_clock flags) (ticks 3) fresh cluster
      (manager_registry-AllKeepProgress toy toy_clock flags) refl fresh-IsAdmitted
