-- ===== src/Controller/Retry.antt =====
-- internal/controller/nodemaintenance_controller.go: passes of the controller where reads may fail or give
-- an old object, and updates may be refused.
pub mod Pass
pub mod Same
pub mod Sends
pub mod Holds
pub mod End
pub mod Course
use kluster_one.Prelude.{
  not, ◌&&◌, ◌||◌, ◌≡◌, ◌≢◌, refl, sym, ap, subst, ◌∙◌, ◌⊎◌, inl, inr, Bool, true, false, List, [],
  ◌∷◌, Option, none, some, Result, ok, err, Error, Bytes, arith, Bool-cases, Option-cases,
  Result-cases, ◌||◌, if◌then◌else◌,
}
use kluster_one.Api.{NodeMaintenance, ScriptSpec, is_completed, is_failed, is_terminal}
use kluster_one.Kube.{Kube}
use kluster_one.Actions.Apart.{Apart, AllKeepView}
use kluster_one.Actions.Script.Apart.{ensure_script_config_map_keeps}
use kluster_one.Orchestrator.{init, step}
use kluster_one.Orchestrator.Apart.{init_keeps, step_keeps_view}
use kluster_one.Orchestrator.Ask.{ask, init_asks, step_asks}
use kluster_one.Controller.Idle.{is_terminal-or}
use kluster_one.Controller.{
  Reconciler, Requeue, no_requeue, requeue_now, after, is_conflict, is_fresh, persist, render,
  drive, proceed, seed_status, reconcile_nm, reconcile, paused_requeue,
}

-- What the API server documents of optimistic concurrency. `current w name` says whether the object of that
-- name that was read last has the resource version of the one that is stored; an update that succeeds needs
-- that, and an update that fails stores nothing.
pub record FlakyLaws (K : Kube) (stored : K.World → Bytes → Option NodeMaintenance) : Type 0 where
  pub current : K.World → Bytes → Bool
  pub get_nm_named :
      (name : Bytes) (w : K.World) (nm : NodeMaintenance)
      → (K.get_nm name w).0 ≡ ok nm
      → nm.meta.name ≡ name
  pub get_nm_current :
      (name : Bytes) (w : K.World) (nm : NodeMaintenance)
      → (K.get_nm name w).0 ≡ ok nm
      → current (K.get_nm name w).1 name ≡ true
      → stored w name ≡ some nm
  pub get_nm_keeps : (name : Bytes) (w : K.World) → stored (K.get_nm name w).1 name ≡ stored w name
  pub update_status_current :
      (nm : NodeMaintenance) (w : K.World)
      → (K.update_status nm w).0 ≡ none
      → current w nm.meta.name ≡ true
  pub update_status_stores :
      (nm : NodeMaintenance) (w : K.World)
      → (K.update_status nm w).0 ≡ none
      → stored (K.update_status nm w).1 nm.meta.name ≡ some nm
  pub update_status_refused :
      (nm : NodeMaintenance) (w : K.World) (e : Error)
      → (K.update_status nm w).0 ≡ some e
      → stored (K.update_status nm w).1 nm.meta.name ≡ stored w nm.meta.name
  pub apart :
      (name : Bytes)
      → Apart K (Option NodeMaintenance × Bool) (λ w. (stored w name, current w name))

module _ (K : Kube) where
  open K use {World, get_nm, update_status}

  -- What a pass over a resource that is under way or has no status sends to the server, and when.
  unfoldable pub sent : Reconciler K → NodeMaintenance → World → NodeMaintenance × World
  sent r nm w =
      let (nm₁, _, w₁) = init K nm w in
      let (nm₂, _, w₂) = step K r.registry nm (render K r nm w) in
      if is_fresh nm then (nm₁, w₁) else (nm₂, w₂)

  abbrev pub succeeds : Option Error → Bool
  succeeds none = true
  succeeds (some e) = false

  -- The pass sends an update: it seeds the status, or the resource is not paused.
  unfoldable pub writes : NodeMaintenance → Bool
  writes nm = is_fresh nm || not nm.spec.paused

  -- The pass reads a resource on which it sends an update, and the server takes that.
  unfoldable pub lands : Reconciler K → Bytes → World → Bool
  lands r name w =
      let (got, w₁) = get_nm name w in
      elim got [
        | err e ↦ false
        | ok nm ↦ let (nm', w') = sent r nm w₁ in writes nm && succeeds (update_status nm' w').0
      ]

  module _ (stored : World → Bytes → Option NodeMaintenance) (laws : FlakyLaws K stored) where
    open laws use {current}

    abbrev pub view : Bytes → World → Option NodeMaintenance × Bool
    view name w = (stored w name, current w name)

    pub view-render :
        (r : Reconciler K) (nm : NodeMaintenance) (name : Bytes) (w : World)
        → view name (render K r nm w) ≡ view name w
    unfolding render
    view-render r nm name w = elim (Option-cases nm.spec.script) [
      | inl without ↦ rw (render, without) refl
      | inr (script, given) ↦
          rw (render, given)
            (ensure_script_config_map_keeps K _ (view name) (laws.apart name) nm script
              r.runner_namespace w)
    ]

    view-step :
        (r : Reconciler K) (nm : NodeMaintenance) (name : Bytes) (w : World)
        → AllKeepView K _ (view name) r.registry
        → view name (step K r.registry nm (render K r nm w)).2 ≡ view name w
    view-step r nm name w keep =
        step_keeps_view K _ (view name) (laws.apart name) r.registry keep nm (render K r nm w)
        ∙ view-render r nm name w

    pub sent_view :
        (r : Reconciler K) (nm : NodeMaintenance) (name : Bytes) (w : World)
        → AllKeepView K _ (view name) r.registry
        → let (nm', w') = sent r nm w in (ask nm' ≡ ask nm) × (view name w' ≡ view name w)
    unfolding sent
    sent_view r nm name w keep = elim (Bool-cases (is_fresh nm)) [
      | inl fresh ↦
          rw (sent, fresh) (init_asks K nm w, init_keeps K _ (view name) (laws.apart name) nm w)
      | inr started ↦
          rw (sent, started)
            (step_asks K r.registry nm (render K r nm w), view-step r nm name w keep)
    ]

    -- Either nothing is stored, or the server takes an update of this resource, while what can be seen of
    -- it is as it was, and that is what is stored.
    abbrev pub Writes : NodeMaintenance → Bytes → World → World → Type 0
    Writes nm name w w' =
        (stored w' name ≡ stored w name)
        ⊎ (new : NodeMaintenance) × (before : World) × (ask new ≡ ask nm)
          × (view name before ≡ view name w)
          × ((update_status new before).0 ≡ none)
          × (stored w' name ≡ some new)

    pub persist-Writes :
        (nm new : NodeMaintenance) (name : Bytes) (fine : Requeue) (w before : World)
        → nm.meta.name ≡ name
        → ask new ≡ ask nm
        → view name before ≡ view name w
        → Writes nm name w (persist K new fine before).2
    unfolding persist is_conflict
    persist-Writes nm new name fine w before named same seen =
        let here : new.meta.name ≡ name = ap (λ a. a.0.name) same ∙ named in
        elim (Option-cases (update_status new before).0) [
          | inl taken ↦
              let there =
                subst (λ n. stored (update_status new before).1 n ≡ some new) here
                  (laws.update_status_stores new before taken) in
              inr (new, before, same, seen, taken, ground (arith, taken, there))
          | inr (e, refused) ↦
              let kept =
                subst (λ n. stored (update_status new before).1 n ≡ stored before n) here
                  (laws.update_status_refused new before e refused) in
              inl (ground (arith, refused, kept ∙ ap (λ v. v.0) seen))
        ]

    pub drive-Writes :
        (r : Reconciler K) (nm : NodeMaintenance) (name : Bytes) (w : World)
        → AllKeepView K _ (view name) r.registry
        → nm.meta.name ≡ name
        → Writes nm name w (drive K r nm (render K r nm w)).2
    unfolding drive
    drive-Writes r nm name w keep named =
        let (nm', more, w') = step K r.registry nm (render K r nm w) in
        persist-Writes nm nm' name _ w w' named (step_asks K r.registry nm (render K r nm w))
          (view-step r nm name w keep)

    pub proceed-Writes :
        (r : Reconciler K) (nm : NodeMaintenance) (name : Bytes) (w : World)
        → AllKeepView K _ (view name) r.registry
        → nm.meta.name ≡ name
        → Writes nm name w (proceed K r nm w).2
    unfolding proceed
    proceed-Writes r nm name w keep named = elim (Bool-cases nm.spec.paused) [
      | inl paused ↦
          let kept = ap (λ v. v.0) (view-render r nm name w) in inl (ground (arith, paused, kept))
      | inr active ↦
          let same : (proceed K r nm w).2 ≡ (drive K r nm (render K r nm w)).2 =
            ground (arith, active) in
          subst (Writes nm name w) (sym same) (drive-Writes r nm name w keep named)
    ]
