-- ===== src/Orchestrator/Runs.antt =====
-- internal/orchestrator/orchestrator.go: a run as a sequence of Steps. Between two Steps the cluster may
-- change in any way: each Step comes with such a change. The spec stays as it is.
use kluster_one.Prelude.{◌≡◌, sym, List, [], ◌∷◌, All, subst}
use kluster_one.Api.{NodeMaintenance}
use kluster_one.Kube.{Kube}
use kluster_one.Actions.{Registry}
use kluster_one.Actions.Contract.{AllKeepProgress}
use kluster_one.Orchestrator.Nodes.{effective_actions}
use kluster_one.Orchestrator.NodeStep.{Tracks}
use kluster_one.Orchestrator.Progress.{step-Tracks}
use kluster_one.Orchestrator.{step}

module _ (K : Kube) where
  open K use {World}

  -- The resource and the world after one Step for each change of the world.
  unfoldable pub steps :
      Registry K → List (World → World) → NodeMaintenance → World → NodeMaintenance × World
  steps reg [] nm w = (nm, w)
  steps reg (change ∷ more) nm w =
      let (nm', _, w') = step K reg nm (change w) in steps reg more nm' w'

  steps-Tracks :
      (reg : Registry K) (changes : List (World → World)) (nm : NodeMaintenance) (w : World)
      → AllKeepProgress K reg
      → All (Tracks (effective_actions nm.spec)) nm.status.nodes
      → All (Tracks (effective_actions nm.spec)) (steps reg changes nm w).0.status.nodes
  unfolding steps
  steps-Tracks reg [] nm w keep h = h
  steps-Tracks reg (change ∷ more) nm w keep h =
      let nm' = (step K reg nm (change w)).0 in
      let (after, same) = step-Tracks K reg nm (change w) keep h in
      let here =
        subst (λ s. All (Tracks (effective_actions s)) nm'.status.nodes) (sym same) after in
      subst
        (λ s.
          All (Tracks (effective_actions s))
            (steps reg more nm' (step K reg nm (change w)).2).0.status.nodes)
        same (steps-Tracks reg more nm' (step K reg nm (change w)).2 keep here)

  -- After any number of Steps on a fresh resource, whatever the cluster does and whichever actions fail,
  -- every node has completed a first part of the planned actions in their order, and a node whose phase
  -- is Completed has completed all of them. (The registered actions leave a node's progress alone.)
  pub steps_fresh-Tracks :
      (reg : Registry K) (changes : List (World → World)) (nm : NodeMaintenance) (w : World)
      → AllKeepProgress K reg
      → nm.status.nodes ≡ []
      → All (Tracks (effective_actions nm.spec)) (steps reg changes nm w).0.status.nodes
  steps_fresh-Tracks reg changes nm w keep fresh = steps-Tracks reg changes nm w keep (rw fresh tt)
