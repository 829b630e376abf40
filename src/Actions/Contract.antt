-- ===== src/Actions/Contract.antt =====
-- What the orchestrator relies on of an action: it may write telemetry into the node's status, and
-- leaves the node's name, its phase and the list of completed actions alone.
use kluster_one.Prelude.{◌≡◌, [], ◌∷◌, All, ok, arith, subst, Bool-cases, inl, inr}
use kluster_one.Api.{NodeMaintenance, NodeStatus, ActionSpec, ActionType}
use kluster_one.Kube.{Kube, Node}
use kluster_one.Actions.{Action, Registry, action_type_eq, get_action}

pub record KeepsProgress (K : Kube) (a : Action K) : Type 0 where
  pub keeps_name :
      (nm : NodeMaintenance) (node : Node) (ns : NodeStatus) (spec : ActionSpec) (w : K.World)
      → (a nm node ns spec w).0.name ≡ ns.name
  pub keeps_phase :
      (nm : NodeMaintenance) (node : Node) (ns : NodeStatus) (spec : ActionSpec) (w : K.World)
      → (a nm node ns spec w).0.phase ≡ ns.phase
  pub keeps_completed :
      (nm : NodeMaintenance) (node : Node) (ns : NodeStatus) (spec : ActionSpec) (w : K.World)
      → (a nm node ns spec w).0.completed_actions ≡ ns.completed_actions

abbrev pub AllKeepProgress : (K : Kube) → Registry K → Type 0
AllKeepProgress K reg = All (λ e. KeepsProgress K e.1) reg

-- So it holds of every action that the registry gives.
pub get_action-KeepsProgress :
    (K : Kube) (t : ActionType) (reg : Registry K) (a : Action K)
    → AllKeepProgress K reg
    → get_action K t reg ≡ ok a
    → KeepsProgress K a
unfolding get_action
get_action-KeepsProgress K t [] a h e = ground arith
get_action-KeepsProgress K t ((n, b) ∷ reg) a h e = elim (Bool-cases (action_type_eq n t)) [
  | inl hit ↦ let same : b ≡ a = ground arith in subst (KeepsProgress K) same h.0
  | inr miss ↦ get_action-KeepsProgress K t reg a h.1 (rw miss at e)
]
