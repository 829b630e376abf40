-- ===== src/Orchestrator/Progress.antt =====
-- internal/orchestrator/orchestrator.go: the nodes' progress through the plan under `Step`.
use kluster_one.Prelude.{
  ℕ, ◌+◌, ◌≡◌, refl, sym, ◌∙◌, inl, inr, false, List, [], ◌∷◌, map, arith, ◌≢◌, List-cases, ok, All,
  All-append, Aligned, Result-cases, Bytes, subst,
}
use kluster_one.Api.{NodeMaintenance, NodeStatus, ActionSpec, pending_node}
use kluster_one.Kube.{Kube}
use kluster_one.Actions.{Registry}
use kluster_one.Actions.Contract.{AllKeepProgress}
use kluster_one.Orchestrator.Nodes.{effective_actions, effective_budget, promote, in_flight}
use kluster_one.Orchestrator.NodeStep.{
  NodeStep, Tracks, NodeStep-Tracks, All-of_Aligned, run_actions_loop-NodeStep,
}
use kluster_one.Orchestrator.{
  admit, rollup, run_actions, init_status, resolve_nodes, seed, init_fresh, run_pass, step,
}

pub promote-Tracks :
    (plan : List ActionSpec) (b t k : ℕ) (ns : List NodeStatus)
    → All (Tracks plan) ns
    → All (Tracks plan) (promote b t k ns)
unfolding promote
promote-Tracks plan b t k [] h = tt
promote-Tracks plan b t k (n ∷ ns) h =
    ground (arith, promote-Tracks plan b t k ns h.1, promote-Tracks plan b t (k + 1) ns h.1)

pub pending_node-Tracks :
    (plan : List ActionSpec) (names : List Bytes) (t : ℕ)
    → All (Tracks plan) (map (λ m. pending_node m t) names)
pending_node-Tracks plan [] t = tt
pending_node-Tracks plan (n ∷ names) t = (
  record { listed = refl; in_order = refl; finished = λ q. cc },
  pending_node-Tracks plan names t,
)

pub admit-Tracks :
    (K : Kube) (nm : NodeMaintenance) (w : K.World)
    → All (Tracks (effective_actions nm.spec)) nm.status.nodes
    → All (Tracks (effective_actions nm.spec)) (admit K nm w).status.nodes
unfolding admit
admit-Tracks K nm w h =
    promote-Tracks (effective_actions nm.spec) (effective_budget nm) (K.now w)
      (in_flight nm.status.nodes) nm.status.nodes h

module _ (K : Kube) where
  open K use {World, now}

  -- `rollup` writes the summary, the phase and the completion time alone.
  pub rollup_keeps :
      (nm : NodeMaintenance) (w : World)
      → let nm' = (rollup K nm w).0 in
        (nm'.status.nodes ≡ nm.status.nodes) × (nm'.spec ≡ nm.spec) × (nm'.meta ≡ nm.meta)
  unfolding rollup
  rollup_keeps nm w = ground arith

  -- The run as `runActions` leaves it.
  abbrev pub passed : Registry K → NodeMaintenance → World → NodeMaintenance
  passed reg nm w = (run_actions K reg (admit K nm w) w).0

  pub init_status_seeded :
      (nm : NodeMaintenance) (w : World)
      → nm.status.nodes ≢ []
      → init_status K nm w ≡ (nm, ok false, w)
  unfolding init_status
  init_status_seeded nm w h = ground arith

  pub step_seeded :
      (reg : Registry K) (nm : NodeMaintenance) (w : World)
      → nm.status.nodes ≢ []
      → let (nm', more, w') = run_pass K reg nm w in step K reg nm w ≡ (nm', ok more, w')
  unfolding step
  step_seeded reg nm w h = rw (init_status_seeded nm w h, step) (rw (init_status_seeded nm w h))

  module _ (reg : Registry K) (nm : NodeMaintenance) (w : World)
      (keep : AllKeepProgress K reg) where
    -- The nodes after a pass, from the nodes after `admit`.
    pub passed-NodeStep :
        Aligned
          (NodeStep (effective_actions nm.spec))
          (admit K nm w).status.nodes
          (passed reg nm w).status.nodes
    unfolding run_actions admit
    passed-NodeStep =
        run_actions_loop-NodeStep K reg (admit K nm w) keep (admit K nm w).status.nodes w

    pub passed-Tracks :
        All (Tracks (effective_actions nm.spec)) nm.status.nodes
        → All (Tracks (effective_actions nm.spec)) (passed reg nm w).status.nodes
    passed-Tracks h =
        All-of_Aligned (admit K nm w).status.nodes _ (NodeStep-Tracks (effective_actions nm.spec))
          passed-NodeStep (admit-Tracks K nm w h)

    -- The spec is what the user wrote.
    pub passed-spec : (passed reg nm w).spec ≡ nm.spec
    unfolding run_actions admit
    passed-spec = refl

  pub run_pass-Tracks :
      (reg : Registry K) (nm : NodeMaintenance) (w : World)
      → AllKeepProgress K reg
      → let plan = effective_actions nm.spec in
        All (Tracks plan) nm.status.nodes
        → All (Tracks plan) (run_pass K reg nm w).0.status.nodes
          × ((run_pass K reg nm w).0.spec ≡ nm.spec)
  unfolding run_pass
  run_pass-Tracks reg nm w keep h =
      let (nodes, spec, _) =
        rollup_keeps (passed reg nm w) (run_actions K reg (admit K nm w) w).2 in
      (rw nodes (passed-Tracks reg nm w keep h), spec ∙ passed-spec reg nm w keep)

  seed-Tracks :
      (nm : NodeMaintenance) (names : List Bytes) (t : ℕ) (plan : List ActionSpec)
      → All (Tracks plan) nm.status.nodes
      → All (Tracks plan) (seed K nm names t).status.nodes × ((seed K nm names t).spec ≡ nm.spec)
  unfolding seed
  seed-Tracks nm [] t plan h = (h, refl)
  seed-Tracks nm (n ∷ names) t plan h =
      (All-append (Tracks plan) nm.status.nodes _ h (pending_node-Tracks plan (n ∷ names) t), refl)

  init_fresh-Tracks :
      (nm : NodeMaintenance) (w : World) (plan : List ActionSpec)
      → All (Tracks plan) nm.status.nodes
      → All (Tracks plan) (init_fresh K nm w).0.status.nodes
        × ((init_fresh K nm w).0.spec ≡ nm.spec)
  unfolding init_fresh
  init_fresh-Tracks nm w plan h = elim (Result-cases (resolve_nodes K nm.spec w).0) [
    | inr (e, failed) ↦ rw (failed, init_fresh) (h, refl)
    | inl (names, found) ↦ rw (found, init_fresh) (seed-Tracks _ names _ plan h)
  ]

  pub init_status_empty :
      (nm : NodeMaintenance) (w : World)
      → nm.status.nodes ≡ []
      → init_status K nm w ≡ init_fresh K nm w
  unfolding init_status
  init_status_empty nm w h = ground arith

  -- `initStatus` seeds fresh nodes or leaves the nodes alone, and never changes the spec.
  pub init_status-Tracks :
      (nm : NodeMaintenance) (w : World) (plan : List ActionSpec)
      → All (Tracks plan) nm.status.nodes
      → All (Tracks plan) (init_status K nm w).0.status.nodes
        × ((init_status K nm w).0.spec ≡ nm.spec)
  init_status-Tracks nm w plan h = elim (List-cases nm.status.nodes) [
    | inr (x, xs, e) ↦ rw (init_status_seeded nm w (ground arith)) (h, refl)
    | inl none_yet ↦ rw (init_status_empty nm w none_yet) (init_fresh-Tracks nm w plan h)
  ]

  -- What a Step leaves of a run, whether or not it found nodes.
  pub step-Tracks :
      (reg : Registry K) (nm : NodeMaintenance) (w : World)
      → AllKeepProgress K reg
      → let plan = effective_actions nm.spec in
        All (Tracks plan) nm.status.nodes
        → All (Tracks plan) (step K reg nm w).0.status.nodes × ((step K reg nm w).0.spec ≡ nm.spec)
  unfolding step
  step-Tracks reg nm w keep h =
      let (nm₁, r, w₁) = init_status K nm w in
      let (tracks, same) = init_status-Tracks nm w (effective_actions nm.spec) h in
      elim (Result-cases r) [
        | inr (e, failed) ↦ rw (failed, step) (tracks, same)
        | inl (b, fine) ↦
            let (after, same') = run_pass-Tracks reg nm₁ w₁ keep (
              subst (λ s. All (Tracks (effective_actions s)) nm₁.status.nodes) (sym same) tracks) in
            rw (fine, step)
              (
                subst
                    (λ s. All (Tracks (effective_actions s)) (run_pass K reg nm₁ w₁).0.status.nodes)
                    same after,
                same' ∙ same,
              )
      ]
