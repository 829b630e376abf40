-- ===== src/Api/Schema.antt =====
-- api/v1alpha1/nodemaintenance_types.go: the validation markers, which the API server enforces on what is
-- written. A field with `omitempty` is not there when it has its zero value.
use kluster_one.Prelude.{◌≡◌, Bool, true, false, not, ◌&&◌, List, [], ◌∷◌, none, some, All}
use kluster_one.Prelude.Int.{pos, ltb_ℤ}
use kluster_one.Api.{
  NodeMaintenance, NodeMaintenanceSpec, ActionSpec, ActionType, Phase, ScriptSpec, Strategy, unset,
  unknown, unlisted,
}

-- Only the four phases that the API lists.
abbrev pub is_listed : Phase → Bool
is_listed unset = false
is_listed (unknown s) = false
is_listed _ = true

-- The phase of the run, which has `omitempty`.
unfoldable pub admits_phase : Phase → Bool
admits_phase (unknown s) = false
admits_phase _ = true

abbrev admits_type : ActionType → Bool
admits_type (unlisted s) = false
admits_type _ = true

unfoldable pub admits_actions : List ActionSpec → Bool
admits_actions [] = true
admits_actions (a ∷ more) = admits_type a.type && admits_actions more

-- `timeoutSeconds` has a minimum of 1.
unfoldable pub admits_script : ScriptSpec → Bool
admits_script s = elim s.timeout_seconds [ none ↦ true | some t ↦ ltb_ℤ (pos 0) t ]

-- `maxUnavailable` has a minimum of 1, and is left out when it is 0.
unfoldable pub admits_strategy : Strategy → Bool
admits_strategy s = not (ltb_ℤ s.max_unavailable (pos 0))

unfoldable pub admits_spec : NodeMaintenanceSpec → Bool
unfolding admits_actions admits_script admits_strategy
admits_spec spec =
    admits_actions spec.actions
    && (elim spec.script [ none ↦ true | some s ↦ admits_script s ]
        && admits_strategy spec.strategy)

-- The phases of the nodes have no `omitempty`.
pub record IsAdmitted (nm : NodeMaintenance) : Type 0 where
  pub spec : admits_spec nm.spec ≡ true
  pub phase : admits_phase nm.status.phase ≡ true
  pub nodes : All (λ ns. is_listed ns.phase ≡ true) nm.status.nodes
