-- ===== src/Controller/Convergence.antt =====
-- internal/controller/nodemaintenance_controller.go: repeated calls of `Reconcile` on a stored resource.
use kluster_one.Prelude.{
  ltb, ◌+◌, ◌*◌, ◌<◌, ◌≡◌, ◌≢◌, ap, subst, ◌∙◌, ◌⊎◌, inl, inr, true, false, List, [], ◌∷◌, Option,
  none, some, ok, Bytes, arith, Bool-cases, All, length,
}
use kluster_one.Api.{NodeMaintenance, ActionSpec, is_terminal}
use kluster_one.Kube.{Kube}
use kluster_one.Actions.{Registry}
use kluster_one.Actions.Contract.{AllKeepProgress}
use kluster_one.Orchestrator.{step, run_pass, run_actions, admit}
use kluster_one.Orchestrator.Progress.{step_seeded, rollup_keeps, passed}
use kluster_one.Orchestrator.Termination.{Runs, remaining, step_work, last_step, nonempty}
use kluster_one.Orchestrator.Work.{total_work-le}
use kluster_one.Controller.Idle.{is_terminal-or}
use kluster_one.Controller.{
  Reconciler, is_fresh, render, proceed, drive, reconcile_nm, reconcile, persist,
}

-- What the API server documents of the resource: a read gives what is stored and stores nothing, and
-- an update of the status that succeeds stores the resource that was sent.
pub record ResourceLaws (K : Kube) : Type 0 where
  pub stored : K.World → Bytes → Option NodeMaintenance
  pub get_nm_stored :
      (name : Bytes) (w : K.World) (nm : NodeMaintenance)
      → stored w name ≡ some nm
      → ((K.get_nm name w).0 ≡ ok nm) × (stored (K.get_nm name w).1 name ≡ some nm)
  pub update_status_stores :
      (nm : NodeMaintenance) (w : K.World)
      → (K.update_status nm w).0 ≡ none
      → stored (K.update_status nm w).1 nm.meta.name ≡ some nm

module _ (K : Kube) where
  open K use {World, get_nm, update_status}

  -- Passes of the controller, one for each change of the world in between.
  unfoldable pub reconciles : Reconciler K → Bytes → List (World → World) → World → World
  reconciles r name [] w = w
  reconciles r name (change ∷ more) w = reconciles r name more (reconcile K r name (change w)).2

  -- `Step` leaves the user's part of the resource alone.
  pub step_keeps :
      (reg : Registry K) (nm : NodeMaintenance) (w : World)
      → AllKeepProgress K reg
      → nm.status.nodes ≢ []
      → let nm' = (step K reg nm w).0 in (nm'.spec ≡ nm.spec) × (nm'.meta ≡ nm.meta)
  unfolding run_pass run_actions admit
  step_keeps reg nm w keep h =
      let (_, spec, meta) =
        rollup_keeps K (passed K reg nm w) (run_actions K reg (admit K nm w) w).2 in
      rw (step_seeded K reg nm w h) (spec, meta)

  reconcile_nm_drives :
      (r : Reconciler K) (w : World) (nm : NodeMaintenance)
      → is_terminal nm.status.phase ≡ false
      → nm.status.nodes ≢ []
      → nm.spec.paused ≡ false
      → reconcile_nm K r nm w ≡ drive K r nm (render K r nm w)
  unfolding reconcile_nm is_fresh proceed
  reconcile_nm_drives r w nm going nodes active = ground (arith, is_terminal-or nm.status.phase)

  -- On a run that is under way, a pass renders the script and makes one Step.
  reconcile_drives :
      (r : Reconciler K) (name : Bytes) (w : World) (nm : NodeMaintenance)
      → (get_nm name w).0 ≡ ok nm
      → is_terminal nm.status.phase ≡ false
      → nm.status.nodes ≢ []
      → nm.spec.paused ≡ false
      → reconcile K r name w ≡ drive K r nm (render K r nm (get_nm name w).1)
  unfolding reconcile
  reconcile_drives r name w nm got going nodes active =
      rw (reconcile, got) (reconcile_nm_drives r (get_nm name w).1 nm going nodes active)

  reconcile_nm_done :
      (r : Reconciler K) (w : World) (nm : NodeMaintenance)
      → is_terminal nm.status.phase ≡ true
      → (reconcile_nm K r nm w).2 ≡ w
  unfolding reconcile_nm
  reconcile_nm_done r w nm done = ground (arith, is_terminal-or nm.status.phase)

  pub reconcile_done :
      (r : Reconciler K) (name : Bytes) (w : World) (nm : NodeMaintenance)
      → (get_nm name w).0 ≡ ok nm
      → is_terminal nm.status.phase ≡ true
      → (reconcile K r name w).2 ≡ (get_nm name w).1
  unfolding reconcile
  reconcile_done r name w nm got done =
      rw (reconcile, got) (reconcile_nm_done r (get_nm name w).1 nm done)

  module _ (laws : ResourceLaws K)
      (no_conflict : (nm : NodeMaintenance) (w : World) → (update_status nm w).0 ≡ none) where
    open laws use {stored}

    drive_stores :
        (r : Reconciler K) (nm : NodeMaintenance) (w : World)
        → let nm' = (step K r.registry nm w).0 in stored (drive K r nm w).2 nm'.meta.name ≡ some nm'
    unfolding drive persist
    drive_stores r nm w =
        let (nm', _, w') = step K r.registry nm w in
        ground (arith, laws.update_status_stores nm' w' (no_conflict nm' w'), no_conflict nm' w')

    -- The stored resource: of this name, not paused, and a run of the plan.
    pub record Stores (plan : List ActionSpec) (name : Bytes) (w : World) (nm : NodeMaintenance)
        : Type 0 where
      pub here : stored w name ≡ some nm
      pub named : nm.meta.name ≡ name
      pub active : nm.spec.paused ≡ false
      pub run : Runs plan nm

    -- A change of the world that leaves the resource alone.
    abbrev pub Leaves : Bytes → (World → World) → Type 0
    Leaves name change = (w : World) → stored (change w) name ≡ stored w name

    pub done-Stores :
        (r : Reconciler K) (plan : List ActionSpec) (name : Bytes) (w : World)
        (nm : NodeMaintenance)
        → Stores plan name w nm
        → is_terminal nm.status.phase ≡ true
        → Stores plan name (reconcile K r name w).2 nm
    done-Stores r plan name w nm s done =
        let (got, kept) = laws.get_nm_stored name w nm s.here in
        record {
          here = rw (reconcile_done r name w nm got done) kept;
          named = s.named;
          active = s.active;
          run = s.run;
        }

    -- A pass over a run that is under way stores what a Step makes of it.
    pass-Stores :
        (r : Reconciler K) (plan : List ActionSpec) (name : Bytes) (w : World)
        (nm : NodeMaintenance)
        → AllKeepProgress K r.registry
        → Stores plan name w nm
        → is_terminal nm.status.phase ≡ false
        → let w' = render K r nm (get_nm name w).1 in
          Stores plan name (reconcile K r name w).2 (step K r.registry nm w').0
    pass-Stores r plan name w nm keep s going =
        let (got, _) = laws.get_nm_stored name w nm s.here in
        let w' = render K r nm (get_nm name w).1 in
        let nm' = (step K r.registry nm w').0 in
        let some_nodes = nonempty s.run.some_node in
        let (spec, meta) = step_keeps r.registry nm w' keep some_nodes in
        let named : nm'.meta.name ≡ name = ap (λ m. m.name) meta ∙ s.named in
        record {
          here =
              rw (reconcile_drives r name w nm got going some_nodes s.active)
                (subst (λ n. stored (drive K r nm w').2 n ≡ some nm') named (drive_stores r nm w'));
          named = named;
          active = ap (λ p. p.paused) spec ∙ s.active;
          run = (step_work K r.registry keep plan nm w' s.run).0;
        }

    converges :
        (r : Reconciler K) (plan : List ActionSpec) (name : Bytes) (changes : List (World → World))
        (w : World) (nm : NodeMaintenance) (keep : AllKeepProgress K r.registry)
        → All (Leaves name) changes
        → Stores plan name w nm
        → (is_terminal nm.status.phase ≡ true)
          ⊎ (remaining K r.registry keep plan nm < length changes)
        → (nm' : NodeMaintenance) × (stored (reconciles r name changes w) name ≡ some nm')
          × (is_terminal nm'.status.phase ≡ true)
    unfolding reconciles
    converges r plan name [] w nm keep still s (inl done) = (nm, s.here, done)
    converges r plan name [] w nm keep still s (inr less) = absurd (omega arith)
    converges r plan name (change ∷ more) w nm keep (here, still) s enough =
        let s' : Stores plan name (change w) nm = record {
          here = here w ∙ s.here;
          named = s.named;
          active = s.active;
          run = s.run;
        } in
        elim (Bool-cases (is_terminal nm.status.phase)) [
          | inl done ↦
              converges r plan name more _ nm keep still
                (done-Stores r plan name (change w) nm s' done) (inl done)
          | inr going ↦
              let w' = render K r nm (get_nm name (change w)).1 in
              let nm' = (step K r.registry nm w').0 in
              let less = (step_work K r.registry keep plan nm w' s.run).1 in
              let last = last_step K r.registry keep plan nm w' s.run in
              converges r plan name more _ nm' keep still
                (pass-Stores r plan name (change w) nm keep s' going)
                (elim (Bool-cases (ltb 0 (remaining K r.registry keep plan nm))) [
                  | inl some_work ↦ inr (ground arith)
                  | inr no_work ↦ inl (last (ground arith)).1
                ])
        ]

    -- The controller brings a run to its end. Take a stored resource that is not paused, whose run has
    -- nodes with statuses that fit the plan, and registered actions that leave a node's progress alone.
    -- If every update of the status succeeds and nobody else changes the resource, then after more passes
    -- than there are nodes times two more than the planned actions, the stored resource is Completed or
    -- Failed, whatever the cluster does in between and however the actions answer.
    pub reconciles_end :
        (r : Reconciler K) (plan : List ActionSpec) (name : Bytes) (changes : List (World → World))
        (w : World) (nm : NodeMaintenance)
        → AllKeepProgress K r.registry
        → All (Leaves name) changes
        → Stores plan name w nm
        → length nm.status.nodes * (length plan + 2) < length changes
        → (nm' : NodeMaintenance) × (stored (reconciles r name changes w) name ≡ some nm')
          × (is_terminal nm'.status.phase ≡ true)
    reconciles_end r plan name changes w nm keep still s enough =
        converges r plan name changes w nm keep still s
          (inr (omega (arith, total_work-le (length plan) nm.status.nodes)))
