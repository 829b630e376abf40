-- ===== src/Controller/Retry/Course.antt =====
-- internal/controller/nodemaintenance_controller.go: what a run holds at its end, also if many of its passes
-- fail.
use kluster_one.Prelude.{
  ◌+◌, ◌*◌, ◌<◌, ◌^◌, ◌≡◌, refl, ap, ◌∙◌, inl, inr, true, List, [], ◌∷◌, Option, some, ok, Bytes,
  arith, Bool-cases, All, length, length-map, sym,
}
use kluster_one.Api.{NodeMaintenance, NodeStatus, ActionSpec, is_terminal}
use kluster_one.Kube.{Kube}
use kluster_one.Actions.Apart.{AllKeepView}
use kluster_one.Actions.Contract.{AllKeepProgress}
use kluster_one.Orchestrator.{resolve_nodes}
use kluster_one.Orchestrator.Course.{OnCourse, Finished, node_names}
use kluster_one.Orchestrator.Nodes.{effective_actions}
use kluster_one.Orchestrator.Termination.{nonempty}
use kluster_one.Orchestrator.Work.{total_work-le}
use kluster_one.Controller.Convergence.{reconciles}
use kluster_one.Controller.Retry.{FlakyLaws, sent, lands, view}
use kluster_one.Controller.Retry.End.{
  landings, Spares, Ended, going_of_is_fresh, retries_fresh_end, run-Ended,
}
use kluster_one.Controller.Retry.Pass.{pass_lands, pass_misses, pass_done}
use kluster_one.Controller.Retry.Holds.{Awaits, Holds, Holds-SameRun, Live-of_Holds, sent-Holds}
use kluster_one.Controller.{Reconciler, is_fresh, reconcile}

module _ (K : Kube) where
  open K use {World, get_nm}

  -- The run is finished, as it is stored.
  abbrev pub Finishes :
      (stored : World → Bytes → Option NodeMaintenance) (name : Bytes)
      → List ActionSpec
      → List Bytes
      → World
      → Type 0
  Finishes stored name plan names w =
      (end : NodeMaintenance) × (stored w name ≡ some end) × Finished plan names end

  length-node_names :
      (ns : List NodeStatus) (names : List Bytes) → node_names ns ≡ names → length ns ≡ length names
  length-node_names ns names h = sym (length-map (λ n. n.name) ns) ∙ ap length h

  none_named : (ns : List NodeStatus) → node_names ns ≡ [] → ns ≡ []
  none_named [] h = refl
  none_named (n ∷ ns) h = absurd (omega (arith, ap length h))

  module _ (stored : World → Bytes → Option NodeMaintenance) (laws : FlakyLaws K stored)
      (r : Reconciler K) (name : Bytes) (progress : AllKeepProgress K r.registry)
      (keep : AllKeepView K _ (view K stored laws name) r.registry) where
    -- Whatever passes land, the stored resource is in a state of the run.
    reconciles-Holds :
        (plan : List ActionSpec) (n : Bytes) (names : List Bytes) (changes : List (World → World))
        (w : World) (nm : NodeMaintenance)
        → length (n ∷ names) < 2 ^ 31
        → All (Spares K stored name) changes
        → stored w name ≡ some nm
        → Holds K plan (n ∷ names) nm
        → (end : NodeMaintenance) × (stored (reconciles K r name changes w) name ≡ some end)
          × Holds K plan (n ∷ names) end
    unfolding reconciles
    reconciles-Holds plan n names [] w nm few still here h = (nm, here, h)
    reconciles-Holds plan n names (change ∷ more) w nm few (spares, still) here h =
        let (x, here', same) = spares w nm here in
        let h' = Holds-SameRun K plan (n ∷ names) nm x same h in
        let w₁ = change w in
        let w' = (reconcile K r name w₁).2 in
        elim (Bool-cases (is_terminal x.status.phase)) [
          | inl done ↦
              reconciles-Holds plan n names more w' x few still
                (pass_done K stored laws r name w₁ x keep here' done ∙ here') h'
          | inr going ↦
              let live = Live-of_Holds K plan (n ∷ names) x going h' in
              elim (Bool-cases (lands K r name w₁)) [
                | inr missed ↦
                    reconciles-Holds plan n names more w' x few still
                      (pass_misses K stored laws r name w₁ x keep here' live missed ∙ here') h'
                | inl landed ↦
                    let v = (get_nm name w₁).1 in
                    reconciles-Holds plan n names more w' (sent K r x v).0 few still
                      (pass_lands K stored laws r name w₁ x keep here' live landed)
                      (inr (sent-Holds K r plan n names x v progress few h'))
              ]
        ]

    -- A stored end of the run, which holds what the run holds.
    finish :
        (plan : List ActionSpec) (names : List Bytes) (w : World) (x : NodeMaintenance)
        → stored w name ≡ some x
        → Holds K plan names x
        → Ended K stored name w
        → Finishes stored name plan names w
    finish plan names w x here h (end, there, done) =
        let same : x ≡ end = ground (arith, here, there) in
        let over = ap (λ y. is_terminal y.status.phase) same ∙ done in
        elim h [
          | inl a ↦ absurd (ground (arith, over, going_of_is_fresh K x a.fresh))
          | inr c ↦ (
            x,
            here,
            record {
              ended = over;
              each = c.settled over;
              named = c.named;
              tracked = c.run.tracked;
            },
          )
        ]

    pub retries_finish :
        (plan : List ActionSpec) (names : List Bytes) (changes : List (World → World)) (w : World)
        (nm : NodeMaintenance)
        → All (Spares K stored name) changes
        → stored w name ≡ some nm
        → OnCourse plan names nm
        → length nm.status.nodes * (length plan + 2) < landings K r name changes w
        → Finishes stored name plan names (reconciles K r name changes w)
    retries_finish plan [] changes w nm still here c enough =
        absurd (nonempty c.run.some_node (none_named nm.status.nodes c.named))
    retries_finish plan (n ∷ names) changes w nm still here c enough =
        let few : length (n ∷ names) < 2 ^ 31 =
          omega (arith, length-node_names nm.status.nodes (n ∷ names) c.named, c.run.fits) in
        let (x, there, h) = reconciles-Holds plan n names changes w nm few still here (inr c) in
        finish plan (n ∷ names) (reconciles K r name changes w) x there h (
          run-Ended K stored laws r name progress keep plan changes w nm still here c.run
            (inr (omega (arith, enough, total_work-le (length plan) nm.status.nodes))))

    -- The controller brings a resource from its creation to its end, also if passes fail. Take a stored
    -- resource that has no status yet, and whose targets resolve to the same fewer than 2^31 names, and at
    -- least one, whatever the cluster is. Reads may fail or give an old object, the server may refuse updates,
    -- and in between anything may happen that leaves the run alone. Once more passes have read the resource
    -- and stored their update than there are names times two more than the planned actions, and one, the
    -- stored resource is finished.
    pub retries_fresh_finish :
        (names : List Bytes) (changes : List (World → World)) (w : World) (nm : NodeMaintenance)
        → All (Spares K stored name) changes
        → stored w name ≡ some nm
        → is_fresh nm ≡ true
        → ((v : World) → (resolve_nodes K nm.spec v).0 ≡ ok names)
        → 0 < length names
        → length names < 2 ^ 31
        → let plan = effective_actions nm.spec in
          length names * (length plan + 2) + 1 < landings K r name changes w
          → Finishes stored name plan names (reconciles K r name changes w)
    retries_fresh_finish [] changes w nm still here fresh found some_name few enough =
        absurd (omega arith)
    retries_fresh_finish (n ∷ names) changes w nm still here fresh found some_name few enough =
        let plan = effective_actions nm.spec in
        let a : Awaits K plan (n ∷ names) nm = record {
          fresh = fresh;
          planned = refl;
          found = found;
        } in
        let (x, there, h) = reconciles-Holds plan n names changes w nm few still here (inl a) in
        finish plan (n ∷ names) (reconciles K r name changes w) x there h (
          retries_fresh_end K stored laws r name progress keep changes w nm (n ∷ names) still here
            fresh found few enough)
