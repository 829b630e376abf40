-- ===== src/Controller/Idle.antt =====
-- internal/controller/nodemaintenance_controller.go: `Reconcile` on a resource at rest.
use kluster_one.Prelude.{
  ◌≡◌, ◌≢◌, refl, ◌⊎◌, inl, inr, true, false, [], ok, Bytes, arith, Bool-cases, Result-cases, ◌||◌,
}
use kluster_one.Api.{NodeMaintenance, Phase, is_completed, is_failed, is_terminal}
use kluster_one.Kube.{Kube}
use kluster_one.Actions.{Registry}
use kluster_one.Orchestrator.{init, init_fresh}
use kluster_one.Orchestrator.Progress.{init_status_empty}
use kluster_one.Controller.{
  Reconciler, is_fresh, render, proceed, seed_status, reconcile_nm, reconcile, paused_requeue,
}

-- The resource is at rest: done, paused, or without a status.
abbrev pub AtRest : NodeMaintenance → Type 0
AtRest nm = (is_terminal nm.status.phase ≡ true) ⊎ (nm.spec.paused ≡ true) ⊎ (is_fresh nm ≡ true)

pub is_terminal-or : (p : Phase) → (is_completed p || is_failed p) ≡ is_terminal p
is_terminal-or p = ground arith

module _ (K : Kube) where
  open K use {World, get_nm}

  -- `Init` of a resource without nodes fails or seeds a status.
  pub init_seeds :
      (nm : NodeMaintenance) (w : World) → nm.status.nodes ≡ [] → (init K nm w).1 ≢ ok false
  unfolding init init_fresh
  init_seeds nm w h e = ground (arith, init_status_empty K nm w h)

  abbrev pub with : Reconciler K → Registry K → Reconciler K
  with r reg = record r { registry = reg }

  seed_status_at_rest :
      (r : Reconciler K) (reg : Registry K) (nm : NodeMaintenance) (w : World)
      → nm.status.nodes ≡ []
      → seed_status K (with r reg) nm w ≡ seed_status K r nm w
  unfolding seed_status
  seed_status_at_rest r reg nm w h = elim (Result-cases (init K nm w).1) [
    | inr (e, failed) ↦ simp (failed, seed_status)
    | inl (true, seeded) ↦ simp (seeded, seed_status)
    | inl (false, skipped) ↦ absurd (init_seeds nm w h skipped)
  ]

  pub nodes_of_is_fresh : (nm : NodeMaintenance) → is_fresh nm ≡ true → nm.status.nodes ≡ []
  unfolding is_fresh
  nodes_of_is_fresh nm h = ground arith

  reconcile_nm-AtRest :
      (r : Reconciler K) (reg : Registry K) (nm : NodeMaintenance) (w : World)
      → AtRest nm
      → reconcile_nm K (with r reg) nm w ≡ reconcile_nm K r nm w
  unfolding reconcile_nm proceed render paused_requeue
  reconcile_nm-AtRest r reg nm w h = elim (Bool-cases (is_fresh nm)) [
    | inl fresh ↦ ground (arith, seed_status_at_rest r reg nm w (nodes_of_is_fresh nm fresh))
    | inr started ↦ ground (arith, is_terminal-or nm.status.phase)
  ]

  -- On a resource that is Completed or Failed, that is paused, or that has no status yet, Reconcile
  -- runs no action: its answer and the state of the cluster after it are the same whichever actions are
  -- registered.
  pub reconcile-AtRest :
      (r : Reconciler K) (reg : Registry K) (name : Bytes) (w : World)
      → ((nm : NodeMaintenance) → (get_nm name w).0 ≡ ok nm → AtRest nm)
      → reconcile K (with r reg) name w ≡ reconcile K r name w
  unfolding reconcile
  reconcile-AtRest r reg name w h = elim (Result-cases (get_nm name w).0) [
    | inr (e, failed) ↦ rw (reconcile, failed) refl
    | inl (nm, got) ↦
        rw (reconcile, got) (reconcile_nm-AtRest r reg nm (get_nm name w).1 (h nm got))
  ]
