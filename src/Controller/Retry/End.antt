-- ===== src/Controller/Retry/End.antt =====
-- internal/controller/nodemaintenance_controller.go: a run ends also if many of its passes fail.
use kluster_one.Prelude.{
  ℕ, suc, ltb, ◌+◌, ◌*◌, ◌<◌, ◌^◌, ◌≡◌, ◌≢◌, refl, ap, ◌∙◌, ◌⊎◌, inl, inr, true, false, List, [],
  ◌∷◌, Option, some, ok, Bytes, arith, Bool-cases, All, length, length-map, if◌then◌else◌,
}
use kluster_one.Api.{NodeMaintenance, ActionSpec, is_terminal, pending_node}
use kluster_one.Kube.{Kube}
use kluster_one.Actions.Apart.{AllKeepView}
use kluster_one.Actions.Contract.{AllKeepProgress}
use kluster_one.Orchestrator.{init, step, resolve_nodes}
use kluster_one.Orchestrator.Fresh.{Seeded, init-Seeded}
use kluster_one.Orchestrator.Nodes.{effective_actions}
use kluster_one.Orchestrator.Termination.{Runs, remaining, step_work, last_step, nonempty}
use kluster_one.Orchestrator.Work.{total_work-le}
use kluster_one.Controller.Convergence.{reconciles}
use kluster_one.Controller.Fresh.{Runs-of_Seeded}
use kluster_one.Controller.Idle.{nodes_of_is_fresh}
use kluster_one.Controller.Retry.{FlakyLaws, sent, lands, view}
use kluster_one.Controller.Retry.Same.{
  SameRun, Runs-SameRun, is_terminal-SameRun, is_fresh-SameRun, resolve_nodes-SameRun,
}
use kluster_one.Controller.Retry.Pass.{pass_lands, pass_misses, pass_done}
use kluster_one.Controller.Retry.Sends.{Live}
use kluster_one.Controller.{Reconciler, is_fresh, render, reconcile}

module _ (K : Kube) where
  open K use {World, get_nm}

  -- The passes that send an update which the server takes.
  unfoldable pub landings : Reconciler K → Bytes → List (World → World) → World → ℕ
  landings r name [] w = 0
  landings r name (change ∷ more) w =
      let rest = landings r name more (reconcile K r name (change w)).2 in
      if lands K r name (change w) then suc rest else rest

  is_fresh_of_nodes : (nm : NodeMaintenance) → nm.status.nodes ≢ [] → is_fresh nm ≡ false
  unfolding is_fresh
  is_fresh_of_nodes nm h = ground (arith, h)

  pub going_of_is_fresh :
      (nm : NodeMaintenance) → is_fresh nm ≡ true → is_terminal nm.status.phase ≡ false
  unfolding is_fresh
  going_of_is_fresh nm fresh = ground (arith, fresh)

  pub Live-of_run :
      (nm : NodeMaintenance)
      → nm.status.nodes ≢ []
      → is_terminal nm.status.phase ≡ false
      → Live K nm
  Live-of_run nm some_nodes going = record {
    going = going;
    resolves = λ fresh w. absurd (ground (arith, is_fresh_of_nodes nm some_nodes, fresh));
  }

  pub sent_run :
      (r : Reconciler K) (nm : NodeMaintenance) (w : World)
      → nm.status.nodes ≢ []
      → (sent K r nm w).0 ≡ (step K r.registry nm (render K r nm w)).0
  unfolding sent
  sent_run r nm w some_nodes = ground (arith, is_fresh_of_nodes nm some_nodes)

  pub sent_fresh :
      (r : Reconciler K) (nm : NodeMaintenance) (w : World)
      → is_fresh nm ≡ true
      → (sent K r nm w).0 ≡ (init K nm w).0
  unfolding sent
  sent_fresh r nm w fresh = ground (arith, fresh)

  module _ (stored : World → Bytes → Option NodeMaintenance) (name : Bytes) where
    -- A change of the world that leaves the run alone, as it is stored: a user may pause and resume it,
    -- change its budget or its script, and relabel it.
    abbrev pub Spares : (World → World) → Type 0
    Spares change =
        (w : World) (nm : NodeMaintenance)
        → stored w name ≡ some nm
        → (nm' : NodeMaintenance) × (stored (change w) name ≡ some nm') × SameRun nm nm'

    -- The run has ended, as it is stored.
    abbrev pub Ended : World → Type 0
    Ended w =
        (end : NodeMaintenance) × (stored w name ≡ some end) × (is_terminal end.status.phase ≡ true)

  module _ (stored : World → Bytes → Option NodeMaintenance) (laws : FlakyLaws K stored)
      (r : Reconciler K) (name : Bytes) (progress : AllKeepProgress K r.registry)
      (keep : AllKeepView K _ (view K stored laws name) r.registry) where
    stays-Ended :
        (changes : List (World → World)) (w : World)
        → All (Spares stored name) changes
        → Ended stored name w
        → Ended stored name (reconciles K r name changes w)
    unfolding reconciles
    stays-Ended [] w still e = e
    stays-Ended (change ∷ more) w (spares, still) (end, here, done) =
        let (nm, here', same) = spares w end here in
        let done' = is_terminal-SameRun end nm same ∙ done in
        stays-Ended more (reconcile K r name (change w)).2 still
          (nm, pass_done K stored laws r name (change w) nm keep here' done' ∙ here', done')

    pub run-Ended :
        (plan : List ActionSpec) (changes : List (World → World)) (w : World) (nm : NodeMaintenance)
        → All (Spares stored name) changes
        → stored w name ≡ some nm
        → Runs plan nm
        → (is_terminal nm.status.phase ≡ true)
          ⊎ (remaining K r.registry progress plan nm < landings r name changes w)
        → Ended stored name (reconciles K r name changes w)
    unfolding reconciles landings
    run-Ended plan [] w nm still here run (inl done) = (nm, here, done)
    run-Ended plan [] w nm still here run (inr less) = absurd (omega arith)
    run-Ended plan (change ∷ more) w nm still here run (inl done) =
        stays-Ended (change ∷ more) w still (nm, here, done)
    run-Ended plan (change ∷ more) w nm (spares, still) here run (inr less) =
        let (x, here', same) = spares w nm here in
        let run' = Runs-SameRun plan nm x same run in
        let work : remaining K r.registry progress plan x
            ≡ remaining K r.registry progress plan nm =
          rw (same.status) refl in
        let w' = (reconcile K r name (change w)).2 in
        let some_nodes = nonempty run'.some_node in
        elim (Bool-cases (is_terminal x.status.phase)) [
          | inl done ↦
              stays-Ended more w' still
                (x, pass_done K stored laws r name (change w) x keep here' done ∙ here', done)
          | inr going ↦
              let live = Live-of_run x some_nodes going in
              elim (Bool-cases (lands K r name (change w))) [
                | inr missed ↦
                    run-Ended plan more w' x still
                      (pass_misses K stored laws r name (change w) x keep here' live missed ∙ here')
                      run' (inr (ground (arith, less, missed, work)))
                | inl landed ↦
                    let w₁ = (get_nm name (change w)).1 in
                    let w₂ = render K r x w₁ in
                    let nm' = (step K r.registry x w₂).0 in
                    let (run'', smaller) = step_work K r.registry progress plan x w₂ run' in
                    let last = last_step K r.registry progress plan x w₂ run' in
                    run-Ended plan more w' nm' still
                      (pass_lands K stored laws r name (change w) x keep here' live landed
                        ∙ ap some (sent_run r x w₁ some_nodes))
                      run''
                      (elim (Bool-cases (ltb 0 (remaining K r.registry progress plan x))) [
                        | inl some_work ↦
                            inr (ground (arith, less, landed, some_work, smaller, work))
                        | inr no_work ↦ inl (last (ground (arith, no_work))).1
                      ])
              ]
        ]

    init-Ended :
        (changes : List (World → World)) (w v : World) (nm nm' : NodeMaintenance)
        (names : List Bytes)
        → All (Spares stored name) changes
        → stored w name ≡ some nm'
        → Seeded K nm nm' names (K.now v)
        → length names < 2 ^ 31
        → length names * (length (effective_actions nm.spec) + 2) < landings r name changes w
        → Ended stored name (reconciles K r name changes w)
    init-Ended changes w v nm nm' [] still here s few enough =
        stays-Ended changes w still (nm', here, rw (s.ended refl) refl)
    init-Ended changes w v nm nm' (n ∷ names) still here s few enough =
        let plan = effective_actions nm.spec in
        let count : length nm'.status.nodes ≡ length (n ∷ names) =
          ap length s.nodes ∙ length-map (λ m. pending_node m (K.now v)) (n ∷ names) in
        let bound = total_work-le (length plan) nm'.status.nodes in
        run-Ended plan changes w nm' still here (Runs-of_Seeded K nm nm' n names v s few)
          (inr (omega (arith, bound, enough, rw count at bound)))

    -- The controller brings a resource from its creation to its end, also if passes fail. Take a stored
    -- resource that has no status yet, and whose targets resolve to the same fewer than 2^31 names whatever
    -- the cluster is. Reads may fail or give an old object, the server may refuse updates, and in between
    -- anything may happen that leaves the run alone. Once more passes have read the resource and stored their
    -- update than there are names times two more than the planned actions, and one, the stored resource is
    -- Completed or Failed.
    pub retries_fresh_end :
        (changes : List (World → World)) (w : World) (nm : NodeMaintenance) (names : List Bytes)
        → All (Spares stored name) changes
        → stored w name ≡ some nm
        → is_fresh nm ≡ true
        → ((v : World) → (resolve_nodes K nm.spec v).0 ≡ ok names)
        → length names < 2 ^ 31
        → length names * (length (effective_actions nm.spec) + 2) + 1 < landings r name changes w
        → Ended stored name (reconciles K r name changes w)
    unfolding reconciles landings
    retries_fresh_end [] w nm names still here fresh found few enough = absurd (omega arith)
    retries_fresh_end (change ∷ more) w nm names (spares, still) here fresh found few enough =
        let (x, here', same) = spares w nm here in
        let w' = (reconcile K r name (change w)).2 in
        let w₁ = (get_nm name (change w)).1 in
        let fresh' = is_fresh-SameRun nm x same ∙ fresh in
        let found' : (v : World) → (resolve_nodes K x.spec v).0 ≡ ok names =
          λ v. resolve_nodes-SameRun K nm x v same ∙ found v in
        let no_nodes = nodes_of_is_fresh K x fresh' in
        let live : Live K x = record {
          going = going_of_is_fresh x fresh';
          resolves = λ _ v. (init-Seeded K x v names no_nodes (found' v)).0;
        } in
        let size : length (effective_actions x.spec) ≡ length (effective_actions nm.spec) =
          ap length same.plan in
        elim (Bool-cases (lands K r name (change w))) [
          | inr missed ↦
              retries_fresh_end more w' x names still
                (pass_misses K stored laws r name (change w) x keep here' live missed ∙ here')
                fresh' found' few (rw size (ground (arith, enough, missed)))
          | inl landed ↦
              let there =
                pass_lands K stored laws r name (change w) x keep here' live landed
                ∙ ap some (sent_fresh r x w₁ fresh') in
              init-Ended more w' (init K x w₁).2 x (init K x w₁).0 names still there
                (init-Seeded K x w₁ names no_nodes (found' w₁)).1 few
                (rw size (ground (arith, enough, landed)))
        ]
