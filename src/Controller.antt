-- ===== src/Controller.antt =====
-- internal/controller/nodemaintenance_controller.go: one call of `Reconcile` on the resource that the
-- request names. The log lines are left out; the typed client is there (`r.Kube != nil`).
pub mod Idle
pub mod Convergence
pub mod Fresh
pub mod Watched
pub mod Retry
use kluster_one.Prelude.{
  Bool, true, false, not, ◌||◌, ◌&&◌, List, [], ◌∷◌, Option, none, some, Result, ok, err, Error,
  Bytes, if◌then◌else◌, not_found, conflict,
}
use kluster_one.Prelude.Int.{ℤ, pos, ltb_ℤ}
use kluster_one.Api.{NodeMaintenance, ScriptSpec, Phase, unset, is_completed, is_failed}
use kluster_one.Kube.{Kube}
use kluster_one.Actions.{Registry}
use kluster_one.Actions.Script.ConfigMaps.{ensure_script_config_map}
use kluster_one.Orchestrator.{init, step}

-- The orchestrator is its registry of actions.
pub record Reconciler (K : Kube) : Type 0 where
  pub registry : Registry K
  pub runner_namespace : Bytes
  pub requeue_interval : ℤ
  pub paused_requeue_interval : ℤ

-- `ctrl.Result`
pub record Requeue : Type 0 where
  pub requeue : Bool
  pub requeue_after : ℤ

abbrev pub no_requeue : Requeue
no_requeue = record { requeue = false; requeue_after = pos 0 }

abbrev pub requeue_now : Requeue
requeue_now = record { requeue = true; requeue_after = pos 0 }

abbrev pub after : ℤ → Requeue
after d = record { requeue = false; requeue_after = d }

-- `client.IgnoreNotFound`
unfoldable pub ignore_not_found : Error → Option Error
ignore_not_found e = elim e.reason [ not_found ↦ none | _ ↦ some e ]

unfoldable pub is_conflict : Error → Bool
is_conflict e = elim e.reason [ conflict ↦ true | _ ↦ false ]

abbrev pub is_unset : Phase → Bool
is_unset unset = true
is_unset _ = false

-- `len(nm.Status.Nodes) == 0 && nm.Status.Phase == ""`
unfoldable pub is_fresh : NodeMaintenance → Bool
is_fresh nm = elim nm.status.nodes [ [] ↦ is_unset nm.status.phase | _ ∷ _ ↦ false ]

module _ (K : Kube) where
  open K use {World, get_nm, update_status}

  unfoldable pub paused_requeue : Reconciler K → ℤ
  paused_requeue r =
      if ltb_ℤ (pos 0) r.paused_requeue_interval then r.paused_requeue_interval else pos 15000000000

  -- The default that `SetupWithManager` puts in.
  unfoldable pub setup : Reconciler K → Reconciler K
  setup r =
      if ltb_ℤ (pos 0) r.requeue_interval
      then r
      else record r { requeue_interval = pos 10000000000 }

  -- `r.Status().Update`, and what `Reconcile` returns after it if all is well.
  unfoldable pub persist : NodeMaintenance → Requeue → World → Requeue × Option Error × World
  unfolding is_conflict
  persist nm fine w =
      let (e, w') = update_status nm w in
      elim e [
        | none ↦ (fine, none, w')
        | some e ↦ if is_conflict e then (requeue_now, none, w') else (no_requeue, some e, w')
      ]

  -- The rendering of the script, whose error is only logged.
  unfoldable pub render : Reconciler K → NodeMaintenance → World → World
  render r nm w = elim nm.spec.script [
    | none ↦ w
    | some script ↦ (ensure_script_config_map K nm script r.runner_namespace w).1
  ]

  -- `Reconcile` from `Step` on.
  unfoldable pub drive : Reconciler K → NodeMaintenance → World → Requeue × Option Error × World
  drive r nm w =
      let (nm', more, w') = step K r.registry nm w in
      persist nm' (elim more [ ok false ↦ no_requeue | _ ↦ after r.requeue_interval ]) w'

  -- `Reconcile` from the rendering on.
  unfoldable pub proceed : Reconciler K → NodeMaintenance → World → Requeue × Option Error × World
  proceed r nm w =
      let w' = render r nm w in
      if nm.spec.paused then (after (paused_requeue r), none, w') else drive r nm w'

  -- The first-reconcile path; if `Init` seeded nothing, the pass goes on.
  unfoldable pub seed_status :
      Reconciler K → NodeMaintenance → World → Requeue × Option Error × World
  seed_status r nm w =
      let (nm', seeded, w') = init K nm w in
      elim seeded [
        | err e ↦ (after r.requeue_interval, none, w')
        | ok true ↦ persist nm' requeue_now w'
        | ok false ↦ proceed r nm' w'
      ]

  -- `Reconcile` on the resource that was read.
  unfoldable pub reconcile_nm :
      Reconciler K → NodeMaintenance → World → Requeue × Option Error × World
  unfolding is_fresh
  reconcile_nm r nm w =
      if is_completed nm.status.phase || is_failed nm.status.phase
      then (no_requeue, none, w)
      else if is_fresh nm
      then seed_status r nm w
      else proceed r nm w

  unfoldable pub reconcile : Reconciler K → Bytes → World → Requeue × Option Error × World
  unfolding ignore_not_found
  reconcile r name w =
      let (got, w') = get_nm name w in
      elim got [ err e ↦ (no_requeue, ignore_not_found e, w') | ok nm ↦ reconcile_nm r nm w' ]
