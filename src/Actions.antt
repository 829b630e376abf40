-- ===== src/Actions.antt =====
-- internal/actions/action.go: the contract of an action, and the registry.
pub mod Apart
pub mod Contract
pub mod Cordon
pub mod Drain
pub mod Lookup
pub mod Names
pub mod Script
use kluster_one.Prelude.{
  Bool, true, false, List, [], ◌∷◌, Option, Result, ok, err, Error, errorf, codes, if◌then◌else◌,
  ◌++◌,
}
use kluster_one.Prelude.Strings.{bytes_eq}
use kluster_one.Api.{
  NodeMaintenance, NodeStatus, ActionSpec, ActionType, cordon, drain, uncordon, script, unlisted,
  action_name,
}
use kluster_one.Kube.{Kube, Node}

-- `Execute`: the node's status as the action left it, and its error.
abbrev pub Action : Kube → Type 0
Action K =
    NodeMaintenance → Node → NodeStatus → ActionSpec → K.World → NodeStatus × Option Error × K.World

-- `a == b` on the strings.
unfoldable pub action_type_eq : ActionType → ActionType → Bool
unfolding action_name
action_type_eq a b = bytes_eq (action_name a) (action_name b)

-- `map[ActionType]Action`
abbrev pub Registry : Kube → Type 0
Registry K = List (ActionType × Action K)

module _ (K : Kube) where
  unfoldable pub new_registry : Registry K
  new_registry = []

  unfoldable pub register : ActionType → Action K → Registry K → Registry K
  unfolding action_type_eq
  register name a [] = (name, a) ∷ []
  register name a ((n, b) ∷ r) =
      if action_type_eq n name then (name, a) ∷ r else (n, b) ∷ register name a r

  unfoldable pub get_action : ActionType → Registry K → Result (Action K)
  unfolding action_type_eq
  get_action name [] = err (errorf (codes "unknown action " ++ K.quote (action_name name)))
  get_action name ((n, a) ∷ r) = if action_type_eq n name then ok a else get_action name r
