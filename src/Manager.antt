-- ===== src/Manager.antt =====
-- cmd/manager/main.go: the actions and the reconciler that the manager puts together from its flags.
pub mod Retry
pub mod Main
use kluster_one.Prelude.{
  ◌+◌, ◌*◌, ◌^◌, ◌<◌, ◌≡◌, refl, Bool, true, false, List, ◌∷◌, ok, none, some, Bytes, codes, arith,
  All, length,
}
use kluster_one.Prelude.Int.{ℤ, pos}
use kluster_one.Prelude.Strings.{bytes_eq}
use kluster_one.Api.{NodeMaintenance, ActionSpec, cordon, drain, uncordon, script, is_terminal}
use kluster_one.Kube.{Kube}
use kluster_one.Actions.{Registry, new_registry, register, get_action}
use kluster_one.Actions.Contract.{AllKeepProgress}
use kluster_one.Actions.Cordon.{
  cordon_execute, uncordon_execute, cordon-KeepsProgress, uncordon-KeepsProgress,
}
use kluster_one.Actions.Drain.{Drain}
use kluster_one.Actions.Drain.Clock.{ClockLaws}
use kluster_one.Actions.Drain.Empties.{drain_action, drain-KeepsProgress}
use kluster_one.Actions.Script.RunnerPod.{Script}
use kluster_one.Actions.Script.Outcome.{script_action, script-KeepsProgress}
use kluster_one.Controller.{Reconciler, setup, is_fresh}
use kluster_one.Controller.Convergence.{ResourceLaws, Leaves, Stores, reconciles, reconciles_end}
use kluster_one.Controller.Fresh.{reconciles_fresh_end}
use kluster_one.Orchestrator.{resolve_nodes}
use kluster_one.Orchestrator.Nodes.{effective_actions}

-- The flags that reach the reconciler.
pub record Flags : Type 0 where
  pub drain_timeout : ℤ
  pub requeue_interval : ℤ
  pub runner_image : Bytes
  pub runner_keep_pods : Bool
  pub runner_poll_interval : ℤ

abbrev pub runner_namespace : Bytes
runner_namespace = codes "ko-system"

abbrev pub drain_config : Flags → Drain
drain_config f = record { default_timeout = f.drain_timeout; poll_interval = pos 5000000000 }

abbrev pub script_config : Flags → Script
script_config f = record {
  runner_namespace = runner_namespace;
  default_image = f.runner_image;
  poll_interval = f.runner_poll_interval;
  keep_pods = f.runner_keep_pods;
  log_tail_bytes = pos 0;
}

module _ (K : Kube) (clock : ClockLaws K) where
  open K use {World, get_nm, update_status}

  -- The four calls of `registry.Register`, the first one innermost.
  unfoldable pub manager_registry : Flags → Registry K
  unfolding register new_registry
  manager_registry f = register K script (script_action K clock (script_config f)) (
      register K drain (drain_action K clock (drain_config f)) (
        register K uncordon (uncordon_execute K)
          (register K cordon (cordon_execute K) (new_registry K))))

  unfoldable pub manager_reconciler : Flags → Reconciler K
  unfolding setup
  manager_reconciler f = setup K (record {
    registry = manager_registry f;
    runner_namespace = runner_namespace;
    requeue_interval = f.requeue_interval;
    paused_requeue_interval = pos 0;
  })

  pub manager_registry-AllKeepProgress : (f : Flags) → AllKeepProgress K (manager_registry f)
  unfolding manager_registry bytes_eq
  manager_registry-AllKeepProgress f = (
    cordon-KeepsProgress K,
    (
      uncordon-KeepsProgress K,
      (
        drain-KeepsProgress K clock (drain_config f),
        (script-KeepsProgress K clock (script_config f), tt),
      ),
    ),
  )

  pub manager_reconciler-registry :
      (f : Flags) → (manager_reconciler f).registry ≡ manager_registry f
  unfolding manager_reconciler
  manager_reconciler-registry f = ground arith

  -- Each of the four types that the API lists is registered with its own action.
  manager_registry_resolves :
      (f : Flags)
      → let reg = manager_registry f in
        (get_action K cordon reg ≡ ok (cordon_execute K))
        × (get_action K uncordon reg ≡ ok (uncordon_execute K))
        × (get_action K drain reg ≡ ok (drain_action K clock (drain_config f)))
        × (get_action K script reg ≡ ok (script_action K clock (script_config f)))
  unfolding manager_registry get_action bytes_eq
  manager_registry_resolves f = (refl, refl, refl, refl)

  module _ (laws : ResourceLaws K)
      (no_conflict : (nm : NodeMaintenance) (w : World) → (update_status nm w).0 ≡ none) where
    open laws use {stored}

    -- The controller that the manager starts brings a run to its end. Take a stored resource that is not
    -- paused and whose run has nodes with statuses that fit the plan. If every update of the status
    -- succeeds, nobody else changes the resource and the clock runs, then after more passes than there
    -- are nodes times two more than the planned actions, the stored resource is Completed or Failed,
    -- whatever the flags, whatever the cluster does in between and however it answers.
    pub manager_reconciles_end :
        (f : Flags) (plan : List ActionSpec) (name : Bytes) (changes : List (World → World))
        (w : World) (nm : NodeMaintenance)
        → All (Leaves K laws no_conflict name) changes
        → Stores K laws no_conflict plan name w nm
        → length nm.status.nodes * (length plan + 2) < length changes
        → (nm' : NodeMaintenance) × (stored
              (reconciles K (manager_reconciler f) name changes w)
              name
            ≡ some nm')
          × (is_terminal nm'.status.phase ≡ true)
    manager_reconciles_end f plan name changes w nm still s enough =
        reconciles_end K laws no_conflict (manager_reconciler f) plan name changes w nm
          (rw (manager_reconciler-registry f) (manager_registry-AllKeepProgress f)) still s enough

    -- The controller that the manager starts brings a resource from its creation to its end. Take a stored
    -- resource that has no status yet and is not paused, and whose targets resolve, on the first pass, to
    -- fewer than 2^31 names. If every update of the status succeeds, nobody else changes the resource and the
    -- clock runs, then after that pass and more passes than there are names times two more than the planned
    -- actions, the stored resource is Completed or Failed, whatever the flags, whatever the cluster does in
    -- between and however it answers.
    pub manager_reconciles_fresh_end :
        (f : Flags) (name : Bytes) (change : World → World) (changes : List (World → World))
        (w : World) (nm : NodeMaintenance) (names : List Bytes)
        → All (Leaves K laws no_conflict name) (change ∷ changes)
        → stored w name ≡ some nm
        → nm.meta.name ≡ name
        → is_fresh nm ≡ true
        → nm.spec.paused ≡ false
        → (resolve_nodes K nm.spec (get_nm name (change w)).1).0 ≡ ok names
        → length names < 2 ^ 31
        → length names * (length (effective_actions nm.spec) + 2) < length changes
        → (end : NodeMaintenance) × (stored
              (reconciles K (manager_reconciler f) name (change ∷ changes) w)
              name
            ≡ some end)
          × (is_terminal end.status.phase ≡ true)
    manager_reconciles_fresh_end f name change changes w nm names still here named fresh active
          found few enough =
        reconciles_fresh_end K laws no_conflict (manager_reconciler f) name change changes w nm
          names (rw (manager_reconciler-registry f) (manager_registry-AllKeepProgress f)) still here
          named fresh active found few enough
