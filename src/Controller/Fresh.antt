-- ===== src/Controller/Fresh.antt =====
-- internal/controller/nodemaintenance_controller.go: the first passes over a resource without a status.
use kluster_one.Prelude.{
  ◌+◌, ◌*◌, ◌^◌, ◌<◌, ◌≡◌, refl, sym, ap, subst, ◌∙◌, true, false, List, [], ◌∷◌, none, some, ok,
  Bytes, arith, All, length, length-map, ◌||◌,
}
use kluster_one.Api.{NodeMaintenance, is_terminal, is_completed, is_failed, pending_node}
use kluster_one.Kube.{Kube}
use kluster_one.Actions.Contract.{AllKeepProgress}
use kluster_one.Controller.Convergence.{
  ResourceLaws, Leaves, reconciles, reconciles_end, reconcile_done,
}
use kluster_one.Controller.Idle.{nodes_of_is_fresh}
use kluster_one.Controller.{
  Reconciler, is_fresh, persist, seed_status, reconcile_nm, reconcile, requeue_now,
}
use kluster_one.Orchestrator.{init, resolve_nodes}
use kluster_one.Orchestrator.Fresh.{Seeded, init-Seeded}
use kluster_one.Orchestrator.Nodes.{effective_actions}
use kluster_one.Orchestrator.Progress.{pending_node-Tracks}
use kluster_one.Orchestrator.NodeStep.{Tracks}
use kluster_one.Orchestrator.Termination.{Runs}

module _ (K : Kube) where
  open K use {World, get_nm, update_status}

  -- A pass over a fresh resource writes what `Init` makes of it.
  reconcile_fresh :
      (r : Reconciler K) (name : Bytes) (w : World) (nm : NodeMaintenance)
      → (get_nm name w).0 ≡ ok nm
      → is_fresh nm ≡ true
      → let (nm', seeded, w') = init K nm (get_nm name w).1 in
        seeded ≡ ok true → (reconcile K r name w).2 ≡ (persist K nm' requeue_now w').2
  unfolding reconcile reconcile_nm seed_status is_fresh
  reconcile_fresh r name w nm got fresh seeded =
      let unset_phase : (is_completed nm.status.phase || is_failed nm.status.phase) ≡ false =
        ground (arith, fresh) in
      rw (reconcile, got, reconcile_nm, unset_phase, fresh, seed_status, seeded) refl

  pub Runs-of_Seeded :
      (nm nm' : NodeMaintenance) (n : Bytes) (names : List Bytes) (w : World)
      → Seeded K nm nm' (n ∷ names) (K.now w)
      → length (n ∷ names) < 2 ^ 31
      → Runs (effective_actions nm.spec) nm'
  Runs-of_Seeded nm nm' n names w s few =
      let count : length nm'.status.nodes ≡ length (n ∷ names) =
        ap length s.nodes ∙ length-map (λ m. pending_node m (K.now w)) (n ∷ names) in
      record {
        planned = ap effective_actions s.ask.spec;
        some_node = omega (arith, count);
        fits = omega (arith, count, few);
        tracked =
            subst (All (Tracks (effective_actions nm.spec))) (sym s.nodes)
              (pending_node-Tracks (effective_actions nm.spec) (n ∷ names) (K.now w));
      }

  module _ (laws : ResourceLaws K)
      (no_conflict : (nm : NodeMaintenance) (w : World) → (update_status nm w).0 ≡ none) where
    open laws use {stored}

    persist_stores :
        (nm : NodeMaintenance) (w : World)
        → stored (persist K nm requeue_now w).2 nm.meta.name ≡ some nm
    unfolding persist
    persist_stores nm w =
        rw (persist, no_conflict nm w) (laws.update_status_stores nm w (no_conflict nm w))

    -- A resource that is done stays as it is.
    done_stays :
        (r : Reconciler K) (name : Bytes) (changes : List (World → World)) (w : World)
        (nm : NodeMaintenance)
        → All (Leaves K laws no_conflict name) changes
        → stored w name ≡ some nm
        → is_terminal nm.status.phase ≡ true
        → stored (reconciles K r name changes w) name ≡ some nm
    unfolding reconciles
    done_stays r name [] w nm still here done = here
    done_stays r name (change ∷ more) w nm (leaves, still) here done =
        let (got, kept) = laws.get_nm_stored name (change w) nm (leaves w ∙ here) in
        done_stays r name more (reconcile K r name (change w)).2 nm still
          (rw (reconcile_done K r name (change w) nm got done) kept) done

    -- What the first pass stores.
    first_pass :
        (r : Reconciler K) (name : Bytes) (w : World) (nm : NodeMaintenance) (names : List Bytes)
        → stored w name ≡ some nm
        → nm.meta.name ≡ name
        → is_fresh nm ≡ true
        → (resolve_nodes K nm.spec (get_nm name w).1).0 ≡ ok names
        → let (nm', _, w') = init K nm (get_nm name w).1 in
          (stored (reconcile K r name w).2 name ≡ some nm') × Seeded K nm nm' names (K.now w')
    first_pass r name w nm names here named fresh found =
        let (got, _) = laws.get_nm_stored name w nm here in
        let w₁ = (get_nm name w).1 in
        let (nm', _, w') = init K nm w₁ in
        let (fine, seeded) = init-Seeded K nm w₁ names (nodes_of_is_fresh K nm fresh) found in
        let named' : nm'.meta.name ≡ name = ap (λ m. m.name) seeded.ask.meta ∙ named in
        (
          rw (reconcile_fresh r name w nm got fresh fine) (
              subst (λ n. stored (persist K nm' requeue_now w').2 n ≡ some nm') named'
                (persist_stores nm' w')),
          seeded,
        )

    ends_from :
        (r : Reconciler K) (name : Bytes) (changes : List (World → World)) (w v : World)
        (nm nm' : NodeMaintenance) (names : List Bytes)
        → AllKeepProgress K r.registry
        → All (Leaves K laws no_conflict name) changes
        → stored w name ≡ some nm'
        → nm.meta.name ≡ name
        → nm.spec.paused ≡ false
        → Seeded K nm nm' names (K.now v)
        → length names < 2 ^ 31
        → length names * (length (effective_actions nm.spec) + 2) < length changes
        → (end : NodeMaintenance) × (stored (reconciles K r name changes w) name ≡ some end)
          × (is_terminal end.status.phase ≡ true)
    ends_from r name changes w v nm nm' [] keep still here named active s few enough = (
      nm',
      done_stays r name changes w nm' still here (rw (s.ended refl) refl),
      rw (s.ended refl) refl,
    )
    ends_from r name changes w v nm nm' (n ∷ names) keep still here named active s few enough =
        let plan = effective_actions nm.spec in
        let run = Runs-of_Seeded nm nm' n names v s few in
        let count : length nm'.status.nodes ≡ length (n ∷ names) =
          ap length s.nodes ∙ length-map (λ m. pending_node m (K.now v)) (n ∷ names) in
        reconciles_end K laws no_conflict r plan name changes w nm' keep still
          (record {
            here = here;
            named = ap (λ m. m.name) s.ask.meta ∙ named;
            active = ap (λ p. p.paused) s.ask.spec ∙ active;
            run = run;
          })
          (rw count enough)

    -- The controller brings a resource from its creation to its end. Take a stored resource that has no
    -- status yet and is not paused, registered actions that leave a node's progress alone, and targets that
    -- resolve, on the first pass, to fewer than 2^31 names. If every update of the status succeeds and nobody
    -- else changes the resource, then after that pass and more passes than there are names times two more
    -- than the planned actions, the stored resource is Completed or Failed, whatever the cluster does in
    -- between and however the actions answer.
    pub reconciles_fresh_end :
        (r : Reconciler K) (name : Bytes) (change : World → World) (changes : List (World → World))
        (w : World) (nm : NodeMaintenance) (names : List Bytes)
        → AllKeepProgress K r.registry
        → All (Leaves K laws no_conflict name) (change ∷ changes)
        → stored w name ≡ some nm
        → nm.meta.name ≡ name
        → is_fresh nm ≡ true
        → nm.spec.paused ≡ false
        → (resolve_nodes K nm.spec (get_nm name (change w)).1).0 ≡ ok names
        → length names < 2 ^ 31
        → length names * (length (effective_actions nm.spec) + 2) < length changes
        → (end : NodeMaintenance) × (stored (reconciles K r name (change ∷ changes) w) name
            ≡ some end)
          × (is_terminal end.status.phase ≡ true)
    unfolding reconciles
    reconciles_fresh_end r name change changes w nm names keep (leaves, still) here named fresh
          active found few enough =
        let (there, seeded) =
          first_pass r name (change w) nm names (leaves w ∙ here) named fresh found in
        ends_from r name changes (reconcile K r name (change w)).2
          (init K nm (get_nm name (change w)).1).2 nm (init K nm (get_nm name (change w)).1).0 names
          keep still there named active seeded few enough
