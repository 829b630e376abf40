-- ===== src/Controller/Retry/Pass.antt =====
-- internal/controller/nodemaintenance_controller.go: what one pass makes of the stored resource.
use kluster_one.Prelude.{
  ◌≡◌, refl, sym, ap, subst, ◌∙◌, inl, inr, true, false, Option, none, some, ok, Bytes, arith,
  Bool-cases, Option-cases, Result-cases, ◌||◌,
}
use kluster_one.Api.{NodeMaintenance, is_completed, is_failed, is_terminal}
use kluster_one.Kube.{Kube}
use kluster_one.Actions.Apart.{AllKeepView}
use kluster_one.Orchestrator.{init}
use kluster_one.Orchestrator.Apart.{init_keeps}
use kluster_one.Orchestrator.Ask.{ask, init_asks}
use kluster_one.Controller.Idle.{is_terminal-or}
use kluster_one.Controller.Retry.Sends.{Live, reconcile_nm_sends, reconcile_nm_idle}
use kluster_one.Controller.Retry.{
  FlakyLaws, sent, writes, lands, view-render, view, Writes, persist-Writes, proceed-Writes,
  sent_view,
}
use kluster_one.Controller.{
  Reconciler, requeue_now, is_conflict, is_fresh, persist, seed_status, reconcile_nm, reconcile,
}

module _ (K : Kube) where
  open K use {World, get_nm, update_status}

  module _ (stored : World → Bytes → Option NodeMaintenance) (laws : FlakyLaws K stored) where
    open laws use {current}

    seed_status-Writes :
        (r : Reconciler K) (nm : NodeMaintenance) (name : Bytes) (w : World)
        → AllKeepView K _ (view K stored laws name) r.registry
        → nm.meta.name ≡ name
        → Writes K stored laws nm name w (seed_status K r nm w).2
    unfolding seed_status
    seed_status-Writes r nm name w keep named =
        let (nm', seeded, w') = init K nm w in
        let meta = init_asks K nm w in
        let seen = init_keeps K _ (view K stored laws name) (laws.apart name) nm w in
        elim (Result-cases seeded) [
          | inr (e, failing) ↦ inl (ground (arith, failing, ap (λ v. v.0) seen))
          | inl (true, fine) ↦
              rw (seed_status, fine)
                (persist-Writes K stored laws nm nm' name requeue_now w w' named meta seen)
          | inl (false, skipped) ↦
              rw (seed_status, skipped)
                (elim (proceed-Writes K stored laws r nm' name w' keep
                  (ap (λ a. a.0.name) meta ∙ named)) [
                    | inl kept ↦ inl (kept ∙ ap (λ v. v.0) seen)
                    | inr (new, before, same, seen', taken, there) ↦
                        inr (new, before, same ∙ meta, seen' ∙ seen, taken, there)
                  ])
        ]

    reconcile_nm-Writes :
        (r : Reconciler K) (nm : NodeMaintenance) (name : Bytes) (w : World)
        → AllKeepView K _ (view K stored laws name) r.registry
        → nm.meta.name ≡ name
        → Writes K stored laws nm name w (reconcile_nm K r nm w).2
    unfolding reconcile_nm
    reconcile_nm-Writes r nm name w keep named =
        elim (Bool-cases (is_completed nm.status.phase || is_failed nm.status.phase)) [
          | inl done ↦ rw (reconcile_nm, done) (inl refl)
          | inr going ↦ elim (Bool-cases (is_fresh nm)) [
            | inl fresh ↦
                rw (reconcile_nm, going, fresh) (seed_status-Writes r nm name w keep named)
            | inr started ↦
                rw (reconcile_nm, going, started)
                  (proceed-Writes K stored laws r nm name w keep named)
          ]
        ]

    -- An update that the server takes, of what was read, was made from the stored object.
    taken_current :
        (name : Bytes) (w before : World) (nm new : NodeMaintenance)
        → (get_nm name w).0 ≡ ok nm
        → ask new ≡ ask nm
        → view K stored laws name before ≡ view K stored laws name (get_nm name w).1
        → (update_status new before).0 ≡ none
        → stored w name ≡ some nm
    taken_current name w before nm new got same seen taken =
        let named = ap (λ a. a.0.name) same ∙ laws.get_nm_named name w nm got in
        let here =
          subst (λ n. current before n ≡ true) named
            (laws.update_status_current new before taken) in
        laws.get_nm_current name w nm got (sym (ap (λ v. v.1) seen) ∙ here)

    -- A pass that lands stores what it sends.
    pub pass_lands :
        (r : Reconciler K) (name : Bytes) (w : World) (nm : NodeMaintenance)
        → AllKeepView K _ (view K stored laws name) r.registry
        → stored w name ≡ some nm
        → Live K nm
        → lands K r name w ≡ true
        → stored (reconcile K r name w).2 name ≡ some (sent K r nm (get_nm name w).1).0
    unfolding lands reconcile persist is_conflict
    pass_lands r name w nm keep here live landed =
        let w₁ = (get_nm name w).1 in
        elim (Result-cases (get_nm name w).0) [
          | inr (e, failed) ↦ absurd (ground (arith, failed))
          | inl (x, got) ↦
              let (new, before) = sent K r x w₁ in
              let (same, seen) = sent_view K stored laws r x name w₁ keep in
              let wrote : writes K x ≡ true = ground (arith, got, landed) in
              let taken : (update_status new before).0 ≡ none = ground (arith, got, landed) in
              let there = taken_current name w before x new got same seen taken in
              let read : x ≡ nm = ground (arith, there, here) in
              let (fine, sends) =
                reconcile_nm_sends K r x w₁ (subst (Live K) (sym read) live) wrote in
              let named = ap (λ a. a.0.name) same ∙ laws.get_nm_named name w x got in
              let new_there =
                subst (λ n. stored (update_status new before).1 n ≡ some new) named
                  (laws.update_status_stores new before taken) in
              subst (λ y. stored (reconcile K r name w).2 name ≡ some (sent K r y w₁).0) read
                (rw (reconcile, got, sends, persist, taken) new_there)
        ]

    -- A pass that does not land leaves the stored resource.
    pub pass_misses :
        (r : Reconciler K) (name : Bytes) (w : World) (nm : NodeMaintenance)
        → AllKeepView K _ (view K stored laws name) r.registry
        → stored w name ≡ some nm
        → Live K nm
        → lands K r name w ≡ false
        → stored (reconcile K r name w).2 name ≡ stored w name
    unfolding lands reconcile persist is_conflict
    pass_misses r name w nm keep here live missed =
        let w₁ = (get_nm name w).1 in
        let read_keeps = laws.get_nm_keeps name w in
        elim (Result-cases (get_nm name w).0) [
          | inr (e, failed) ↦ rw (reconcile, failed) read_keeps
          | inl (x, got) ↦
              let named = laws.get_nm_named name w x got in
              elim (reconcile_nm-Writes r x name w₁ keep named) [
                | inl kept ↦ rw (reconcile, got) (kept ∙ read_keeps)
                | inr (other, when, same', seen', taken', _) ↦
                    let there = taken_current name w when x other got same' seen' taken' in
                    let read : x ≡ nm = ground (arith, there, here) in
                    let (new, before) = sent K r x w₁ in
                    let (same, seen) = sent_view K stored laws r x name w₁ keep in
                    let live' = subst (Live K) (sym read) live in
                    elim (Bool-cases (writes K x)) [
                      | inr idle ↦
                          let rendered = ap (λ v. v.0) (view-render K stored laws r x name w₁) in
                          rw (reconcile, got, reconcile_nm_idle K r x w₁ live' idle)
                            (rendered ∙ read_keeps)
                      | inl wrote ↦
                          let (fine, sends) = reconcile_nm_sends K r x w₁ live' wrote in
                          elim (Option-cases (update_status new before).0) [
                            | inl taken ↦ absurd (ground (arith, got, missed, wrote, taken))
                            | inr (e, refused) ↦
                                let kept =
                                  subst
                                    (λ n. stored (update_status new before).1 n ≡ stored before n)
                                    (ap (λ a. a.0.name) same ∙ named)
                                    (laws.update_status_refused new before e refused) in
                                let all = kept ∙ ap (λ v. v.0) seen ∙ read_keeps in
                                rw (reconcile, got, sends) (ground (arith, refused, all))
                          ]
                    ]
              ]
        ]

    -- A pass over a resource that is done leaves it.
    pub pass_done :
        (r : Reconciler K) (name : Bytes) (w : World) (nm : NodeMaintenance)
        → AllKeepView K _ (view K stored laws name) r.registry
        → stored w name ≡ some nm
        → is_terminal nm.status.phase ≡ true
        → stored (reconcile K r name w).2 name ≡ stored w name
    unfolding reconcile reconcile_nm
    pass_done r name w nm keep here done =
        let w₁ = (get_nm name w).1 in
        let read_keeps = laws.get_nm_keeps name w in
        elim (Result-cases (get_nm name w).0) [
          | inr (e, failed) ↦ rw (reconcile, failed) read_keeps
          | inl (x, got) ↦
              elim (reconcile_nm-Writes r x name w₁ keep (laws.get_nm_named name w x got)) [
                | inl kept ↦ rw (reconcile, got) (kept ∙ read_keeps)
                | inr (other, when, same, seen, taken, _) ↦
                    let there = taken_current name w when x other got same seen taken in
                    let read : x ≡ nm = ground (arith, there, here) in
                    let done' : is_terminal x.status.phase ≡ true = rw read done in
                    let over = is_terminal-or x.status.phase ∙ done' in
                    rw (reconcile, got, reconcile_nm, over) read_keeps
              ]
        ]

    -- A pass never loses the resource, nor what the user asks for.
    pub pass_keeps_ask :
        (r : Reconciler K) (name : Bytes) (w : World) (nm : NodeMaintenance)
        → AllKeepView K _ (view K stored laws name) r.registry
        → stored w name ≡ some nm
        → (nm' : NodeMaintenance) × (stored (reconcile K r name w).2 name ≡ some nm')
          × (nm'.spec ≡ nm.spec)
    unfolding reconcile
    pass_keeps_ask r name w nm keep here =
        let kept = laws.get_nm_keeps name w ∙ here in
        elim (Result-cases (get_nm name w).0) [
          | inr (e, failed) ↦ (nm, rw (reconcile, failed) kept, refl)
          | inl (x, got) ↦
              elim (reconcile_nm-Writes r x name (get_nm name w).1 keep
                (laws.get_nm_named name w x got)) [
                  | inl same ↦ (nm, rw (reconcile, got) (same ∙ kept), refl)
                  | inr (new, before, same, seen, taken, there) ↦
                      let here' = taken_current name w before x new got same seen taken in
                      let read : x ≡ nm = ground (arith, here', here) in
                      (new, rw (reconcile, got) there, ap (λ a. a.1) same ∙ ap (λ y. y.spec) read)
                ]
        ]
