-- ===== src/Controller/Watched.antt =====
-- internal/controller/nodemaintenance_controller.go: when `Reconcile` asks for no further pass.
use kluster_one.Prelude.{
  ◌≡◌, refl, ap, ◌∙◌, ◌⊎◌, inl, inr, true, false, Bool, Option, none, Result, ok, err, Error, Bytes,
  arith, Bool-cases, Result-cases, not_found, [],
}
use kluster_one.Prelude.Int.{ℤ, pos, ltb_ℤ}
use kluster_one.Api.{NodeMaintenance, ObjectMeta, is_terminal}
use kluster_one.Kube.{Kube}
use kluster_one.Actions.{Registry}
use kluster_one.Orchestrator.{init, init_status, admit, rollup, run_actions, run_pass, step}
use kluster_one.Orchestrator.Ask.{init_status_asks, run_pass_asks}
use kluster_one.Controller.Idle.{is_terminal-or, init_seeds, nodes_of_is_fresh}
use kluster_one.Controller.{
  Reconciler, Requeue, no_requeue, requeue_now, after, ignore_not_found, is_conflict, is_fresh,
  setup, persist, render, drive, proceed, seed_status, reconcile_nm, reconcile, paused_requeue,
}

positive_after : (d : ℤ) → ltb_ℤ (pos 0) d ≡ true → after d ≡ no_requeue → (A : Type 0) → A
positive_after d h e A = ground (arith, ap (λ q. q.requeue_after) e)

asked-last :
    (d : ℤ) (more : Result Bool)
    → ltb_ℤ (pos 0) d ≡ true
    → elim more [ ok false ↦ no_requeue | _ ↦ after d ] ≡ no_requeue
    → more ≡ ok false
asked-last d (err e) h q = positive_after d h q _
asked-last d (ok true) h q = positive_after d h q _
asked-last d (ok false) h q = refl

module _ (K : Kube) where
  open K use {World, get_nm, update_status}

  -- No further pass is asked for, and there is no error to retry on.
  abbrev pub IsLast : Requeue × Option Error × World → Type 0
  IsLast (q, e, _) = (q ≡ no_requeue) × (e ≡ none)

  -- The last call stored a status of this resource that is Completed or Failed.
  pub record StoresEnd (meta : ObjectMeta) (w : World) : Type 0 where
    pub sent : NodeMaintenance
    pub before : World
    pub same : sent.meta ≡ meta
    pub ended : is_terminal sent.status.phase ≡ true
    pub stored : (update_status sent before).0 ≡ none
    pub last : (update_status sent before).1 ≡ w

  rollup_ends :
      (nm : NodeMaintenance) (w : World)
      → (rollup K nm w).1 ≡ true
      → is_terminal (rollup K nm w).0.status.phase ≡ true
  unfolding rollup
  rollup_ends nm w h = ground (arith, h)

  -- A Step that leaves no more work leaves a run that has ended.
  step_ends :
      (reg : Registry K) (nm : NodeMaintenance) (w : World)
      → (step K reg nm w).1 ≡ ok false
      → let nm' = (step K reg nm w).0 in
        (is_terminal nm'.status.phase ≡ true) × (nm'.meta ≡ nm.meta)
  unfolding step run_pass
  step_ends reg nm w h =
      let (nm₁, r, w₁) = init_status K nm w in
      let meta = ap (λ a. a.0) (init_status_asks K nm w) in
      elim (Result-cases r) [
        | inr (e, failing) ↦ ground (arith, h, failing)
        | inl (b, fine) ↦
            let (nm₂, _, w₂) = run_actions K reg (admit K nm₁ w₁) w₁ in
            rw (step, fine)
              (
                ground (arith, h, fine, rollup_ends nm₂ w₂),
                ap (λ a. a.0) (run_pass_asks K reg nm₁ w₁) ∙ meta,
              )
      ]

  persist-IsLast :
      (nm : NodeMaintenance) (fine : Requeue) (w : World)
      → IsLast (persist K nm fine w)
      → (fine ≡ no_requeue)
        × ((update_status nm w).0 ≡ none)
        × ((update_status nm w).1 ≡ (persist K nm fine w).2)
  unfolding persist is_conflict
  persist-IsLast nm fine w (q, e) = ground (arith, q, e)

  drive-IsLast :
      (r : Reconciler K) (nm : NodeMaintenance) (w : World)
      → ltb_ℤ (pos 0) r.requeue_interval ≡ true
      → IsLast (drive K r nm w)
      → StoresEnd nm.meta (drive K r nm w).2
  unfolding drive
  drive-IsLast r nm w h l =
      let (nm', more, w') = step K r.registry nm w in
      let (q, stored, last) =
        persist-IsLast nm' (elim more [ ok false ↦ no_requeue | _ ↦ after r.requeue_interval ]) w'
          l in
      let (ended, same) = step_ends r.registry nm w (asked-last r.requeue_interval more h q) in
      record { sent = nm'; before = w'; same = same; ended = ended; stored = stored; last = last }

  paused_requeue_positive : (r : Reconciler K) → ltb_ℤ (pos 0) (paused_requeue K r) ≡ true
  unfolding paused_requeue
  paused_requeue_positive r = ground arith

  proceed_active :
      (r : Reconciler K) (nm : NodeMaintenance) (w : World)
      → nm.spec.paused ≡ false
      → proceed K r nm w ≡ drive K r nm (render K r nm w)
  unfolding proceed
  proceed_active r nm w active = ground (arith, active)

  proceed-IsLast :
      (r : Reconciler K) (nm : NodeMaintenance) (w : World)
      → ltb_ℤ (pos 0) r.requeue_interval ≡ true
      → IsLast (proceed K r nm w)
      → StoresEnd nm.meta (proceed K r nm w).2
  unfolding proceed
  proceed-IsLast r nm w h = elim (Bool-cases nm.spec.paused) [
    | inl paused ↦
        rw (proceed, paused)
          (λ l. positive_after (paused_requeue K r) (paused_requeue_positive r) l.0 _)
    | inr active ↦ rw (proceed_active r nm w active) (drive-IsLast r nm (render K r nm w) h)
  ]

  -- A pass over a resource without a status asks for another one.
  seed_status-IsLast :
      (r : Reconciler K) (nm : NodeMaintenance) (w : World)
      → ltb_ℤ (pos 0) r.requeue_interval ≡ true
      → nm.status.nodes ≡ []
      → ¬ (IsLast (seed_status K r nm w))
  unfolding seed_status
  seed_status-IsLast r nm w h fresh =
      let (nm', seeded, w') = init K nm w in
      elim (Result-cases seeded) [
        | inr (e, failing) ↦
            rw (seed_status, failing) (λ l. positive_after r.requeue_interval h l.0 _)
        | inl (true, fine) ↦
            rw (seed_status, fine)
              (λ l.
                let asked = ap (λ q. q.requeue) (persist-IsLast nm' requeue_now w' l).0 in
                ground (arith, asked))
        | inl (false, skipped) ↦ absurd (init_seeds K nm w fresh skipped)
      ]

  reconcile_nm-IsLast :
      (r : Reconciler K) (nm : NodeMaintenance) (w : World)
      → ltb_ℤ (pos 0) r.requeue_interval ≡ true
      → IsLast (reconcile_nm K r nm w)
      → (is_terminal nm.status.phase ≡ true) ⊎ StoresEnd nm.meta (reconcile_nm K r nm w).2
  unfolding reconcile_nm
  reconcile_nm-IsLast r nm w h = elim (Bool-cases (is_terminal nm.status.phase)) [
    | inl done ↦ λ l. inl done
    | inr going ↦
        let or_false = is_terminal-or nm.status.phase ∙ going in
        elim (Bool-cases (is_fresh nm)) [
          | inl fresh ↦
              rw (reconcile_nm, or_false, fresh)
                (λ l. absurd (seed_status-IsLast r nm w h (nodes_of_is_fresh K nm fresh) l))
          | inr started ↦
              rw (reconcile_nm, or_false, started) (λ l. inr (proceed-IsLast r nm w h l))
        ]
  ]

  -- What the pass that asks for no other one has found: no resource, or one whose run has ended, or whose
  -- end it has stored.
  abbrev pub Settled : Result NodeMaintenance → World → Type 0
  Settled (err e) w = e.reason ≡ not_found
  Settled (ok nm) w = (is_terminal nm.status.phase ≡ true) ⊎ StoresEnd nm.meta w

  setup_positive : (r : Reconciler K) → ltb_ℤ (pos 0) (setup K r).requeue_interval ≡ true
  unfolding setup
  setup_positive r = ground arith

  -- No run is forgotten. Where Reconcile, set up by SetupWithManager, asks for no further pass and
  -- returns no error, the resource does not exist, or it was read as Completed or Failed, or the last
  -- call of the pass stored its status, with the phase Completed or Failed, without an error.
  pub reconcile-Settled :
      (r : Reconciler K) (name : Bytes) (w : World)
      → let (q, e, w') = reconcile K (setup K r) name w in
        q ≡ no_requeue → e ≡ none → Settled (get_nm name w).0 w'
  unfolding reconcile ignore_not_found
  reconcile-Settled r name w = elim (Result-cases (get_nm name w).0) [
    | inr (e, failed) ↦ rw (failed, reconcile) (λ q none. ground (arith, none))
    | inl (nm, got) ↦
        rw (got, reconcile)
          (λ q fine.
            reconcile_nm-IsLast (setup K r) nm (get_nm name w).1 (setup_positive r) (q, fine))
  ]
