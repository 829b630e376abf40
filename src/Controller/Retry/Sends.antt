-- ===== src/Controller/Retry/Sends.antt =====
-- internal/controller/nodemaintenance_controller.go: the update that a pass sends.
use kluster_one.Prelude.{◌≡◌, ◌∙◌, inl, inr, true, false, ok, arith, Bool-cases}
use kluster_one.Api.{NodeMaintenance, is_terminal}
use kluster_one.Kube.{Kube}
use kluster_one.Orchestrator.{init, step}
use kluster_one.Controller.Idle.{is_terminal-or}
use kluster_one.Controller.Retry.{sent, writes}
use kluster_one.Controller.{
  Reconciler, Requeue, no_requeue, requeue_now, after, is_fresh, persist, render, drive, proceed,
  seed_status, reconcile_nm,
}

module _ (K : Kube) where
  open K use {World, get_nm, update_status}

  -- A resource that is not done, with targets that resolve if it has no status.
  pub record Live (nm : NodeMaintenance) : Type 0 where
    pub going : is_terminal nm.status.phase ≡ false
    pub resolves : is_fresh nm ≡ true → (w : World) → (init K nm w).1 ≡ ok true

  -- On such a resource, the pass is the update of what it sends, if it sends one.
  pub reconcile_nm_sends :
      (r : Reconciler K) (nm : NodeMaintenance) (w : World)
      → Live nm
      → writes K nm ≡ true
      → (fine : Requeue) × (reconcile_nm K r nm w
          ≡ persist K (sent K r nm w).0 fine (sent K r nm w).1)
  unfolding reconcile_nm sent seed_status proceed drive writes
  reconcile_nm_sends r nm w live sends =
      let or_false = is_terminal-or nm.status.phase ∙ live.going in
      elim (Bool-cases (is_fresh nm)) [
        | inl fresh ↦ (requeue_now, ground (arith, or_false, fresh, live.resolves fresh w))
        | inr started ↦ (
          elim (step K r.registry nm (render K r nm w)).1 [
            | ok false ↦ no_requeue
            | _ ↦ after r.requeue_interval
          ],
          ground (arith, or_false, started, sends),
        )
      ]

  -- Otherwise the pass renders the script, at most.
  pub reconcile_nm_idle :
      (r : Reconciler K) (nm : NodeMaintenance) (w : World)
      → Live nm
      → writes K nm ≡ false
      → (reconcile_nm K r nm w).2 ≡ render K r nm w
  unfolding reconcile_nm proceed writes
  reconcile_nm_idle r nm w live idle =
      let or_false = is_terminal-or nm.status.phase ∙ live.going in ground (arith, or_false, idle)
