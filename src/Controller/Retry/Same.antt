-- ===== src/Controller/Retry/Same.antt =====
-- internal/controller/nodemaintenance_controller.go: a resource whose run a user leaves alone, also if the rest
-- of it changes.
use kluster_one.Prelude.{◌≡◌, refl, ap, ◌∙◌, List}
use kluster_one.Api.{NodeMaintenance, ActionSpec, is_terminal}
use kluster_one.Kube.{Kube}
use kluster_one.Orchestrator.{resolve_nodes}
use kluster_one.Orchestrator.Resolve.{resolve_same}
use kluster_one.Orchestrator.Nodes.{effective_actions}
use kluster_one.Orchestrator.Termination.{Runs}
use kluster_one.Controller.{is_fresh}

-- The second resource has the status, the targets and the planned actions of the first one.
pub record SameRun (nm nm' : NodeMaintenance) : Type 0 where
  pub status : nm'.status ≡ nm.status
  pub plan : effective_actions nm'.spec ≡ effective_actions nm.spec
  pub all_nodes : nm'.spec.all_nodes ≡ nm.spec.all_nodes
  pub node_names : nm'.spec.node_names ≡ nm.spec.node_names
  pub node_selector : nm'.spec.node_selector ≡ nm.spec.node_selector

pub same_resource : (nm : NodeMaintenance) → SameRun nm nm
same_resource nm = record {
  status = refl;
  plan = refl;
  all_nodes = refl;
  node_names = refl;
  node_selector = refl;
}

pub Runs-SameRun :
    (plan : List ActionSpec) (nm nm' : NodeMaintenance)
    → SameRun nm nm'
    → Runs plan nm
    → Runs plan nm'
Runs-SameRun plan nm nm' same run = record {
  planned = same.plan ∙ run.planned;
  some_node = rw (same.status) run.some_node;
  fits = rw (same.status) run.fits;
  tracked = rw (same.status) run.tracked;
}

pub is_terminal-SameRun :
    (nm nm' : NodeMaintenance)
    → SameRun nm nm'
    → is_terminal nm'.status.phase ≡ is_terminal nm.status.phase
is_terminal-SameRun nm nm' same = ap (λ s. is_terminal s.phase) same.status

pub is_fresh-SameRun : (nm nm' : NodeMaintenance) → SameRun nm nm' → is_fresh nm' ≡ is_fresh nm
unfolding is_fresh
is_fresh-SameRun nm nm' same = rw (same.status) refl

module _ (K : Kube) where
  open K use {World}

  pub resolve_nodes-SameRun :
      (nm nm' : NodeMaintenance) (v : World)
      → SameRun nm nm'
      → (resolve_nodes K nm'.spec v).0 ≡ (resolve_nodes K nm.spec v).0
  resolve_nodes-SameRun nm nm' v same =
      ap (λ r. r.0)
        (resolve_same K nm'.spec nm.spec v same.all_nodes same.node_names same.node_selector)
