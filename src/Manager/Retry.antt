-- ===== src/Manager/Retry.antt =====
-- cmd/manager/main.go: the controller that the manager starts, where reads and updates of the resource may
-- fail.
use kluster_one.Prelude.{◌+◌, ◌*◌, ◌^◌, ◌<◌, ◌≡◌, true, List, Option, some, ok, Bytes, All, length}
use kluster_one.Prelude.Strings.{bytes_eq}
use kluster_one.Api.{NodeMaintenance, ActionSpec}
use kluster_one.Kube.{Kube}
use kluster_one.Actions.Apart.{AllKeepView, cordon-KeepsView, uncordon-KeepsView}
use kluster_one.Actions.Contract.{AllKeepProgress}
use kluster_one.Actions.Drain.Apart.{drain-KeepsView}
use kluster_one.Actions.Drain.Clock.{ClockLaws}
use kluster_one.Actions.Script.Apart.{script-KeepsView}
use kluster_one.Controller.{is_fresh}
use kluster_one.Controller.Convergence.{reconciles}
use kluster_one.Controller.Retry.{FlakyLaws, view}
use kluster_one.Controller.Retry.End.{landings, Spares}
use kluster_one.Controller.Retry.Course.{Finishes, retries_finish, retries_fresh_finish}
use kluster_one.Manager.{
  Flags, drain_config, script_config, manager_registry, manager_reconciler,
  manager_registry-AllKeepProgress, manager_reconciler-registry,
}
use kluster_one.Orchestrator.{resolve_nodes}
use kluster_one.Orchestrator.Nodes.{effective_actions}
use kluster_one.Orchestrator.Course.{OnCourse}

module _ (K : Kube) (clock : ClockLaws K) (stored : K.World → Bytes → Option NodeMaintenance)
    (laws : FlakyLaws K stored) where
  open K use {World}

  manager_registry-AllKeepView :
      (f : Flags) (name : Bytes)
      → AllKeepView K _ (view K stored laws name) (manager_registry K clock f)
  unfolding manager_registry bytes_eq
  manager_registry-AllKeepView f name =
      let apart = laws.apart name in
      let seen = view K stored laws name in
      (
        cordon-KeepsView K _ seen apart,
        (
          uncordon-KeepsView K _ seen apart,
          (
            drain-KeepsView K _ seen apart clock (drain_config f),
            (script-KeepsView K _ seen apart clock (script_config f), tt),
          ),
        ),
      )

  manager_progress : (f : Flags) → AllKeepProgress K (manager_reconciler K clock f).registry
  manager_progress f =
      rw (manager_reconciler-registry K clock f) (manager_registry-AllKeepProgress K clock f)

  pub manager_keeps :
      (f : Flags) (name : Bytes)
      → AllKeepView K _ (view K stored laws name) (manager_reconciler K clock f).registry
  manager_keeps f name =
      rw (manager_reconciler-registry K clock f) (manager_registry-AllKeepView f name)

  -- The controller that the manager starts brings a run to its end also if passes fail. Take a stored
  -- resource whose run is over the named nodes, in this order, with statuses that fit the plan, and is done
  -- only if each of them is. Reads may fail or give an old object, the server may refuse updates, and in
  -- between anything may happen that keeps the stored status, targets and planned actions: a user may pause
  -- and resume the run. Once more passes have read the resource and stored their update than there are nodes
  -- times two more than the planned actions, the stored resource is Completed or Failed, and so is each of the
  -- named nodes; it has completed a first part of the plan in order, and the whole plan if it is Completed.
  -- So it is whatever the flags and however the cluster answers, as long as the clock runs.
  pub manager_retries_end :
      (f : Flags) (plan : List ActionSpec) (names : List Bytes) (name : Bytes)
      (changes : List (World → World)) (w : World) (nm : NodeMaintenance)
      → All (Spares K stored name) changes
      → stored w name ≡ some nm
      → OnCourse plan names nm
      → let r = manager_reconciler K clock f in
        length nm.status.nodes * (length plan + 2) < landings K r name changes w
        → Finishes K stored name plan names (reconciles K r name changes w)
  manager_retries_end f plan names name changes w nm still here course enough =
      retries_finish K stored laws (manager_reconciler K clock f) name (manager_progress f)
        (manager_keeps f name) plan names changes w nm still here course enough

  -- So it does with a resource that has no status yet, whose targets always resolve to the same names.
  pub manager_retries_fresh_end :
      (f : Flags) (name : Bytes) (changes : List (World → World)) (w : World) (nm : NodeMaintenance)
      (names : List Bytes)
      → All (Spares K stored name) changes
      → stored w name ≡ some nm
      → is_fresh nm ≡ true
      → ((v : World) → (resolve_nodes K nm.spec v).0 ≡ ok names)
      → 0 < length names
      → length names < 2 ^ 31
      → let r = manager_reconciler K clock f in
        let plan = effective_actions nm.spec in
        length names * (length plan + 2) + 1 < landings K r name changes w
        → Finishes K stored name plan names (reconciles K r name changes w)
  manager_retries_fresh_end f name changes w nm names still here fresh found some_name few enough =
      retries_fresh_finish K stored laws (manager_reconciler K clock f) name (manager_progress f)
        (manager_keeps f name) names changes w nm still here fresh found some_name few enough
