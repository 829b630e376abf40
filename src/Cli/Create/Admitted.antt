-- ===== src/Cli/Create/Admitted.antt =====
-- internal/cli/create.go and copy.go: the resources of the plugin and the validation of the API.
use kluster_one.Prelude.{◌≡◌, ◌↔◌, refl, true, false, not, Bytes, arith}
use kluster_one.Prelude.Int.{pos, ltb_ℤ}
use kluster_one.Api.Schema.{
  admits_spec, admits_actions, admits_script, admits_strategy, admits_phase, IsAdmitted,
}
use kluster_one.Cli.Create.{CreateFlags, build_nm, build_spec, build_actions, build_script}

build_actions_admitted : (f : CreateFlags) → admits_actions (build_actions f) ≡ true
unfolding build_actions admits_actions
build_actions_admitted f = ground arith

-- A timeout of less than a second, or below zero, becomes 600 seconds.
build_script_admitted :
    (body : Bytes) (f : CreateFlags) → admits_script (build_script body f) ≡ true
unfolding build_script admits_script
build_script_admitted body f = ground arith

admits_spec-build_spec :
    (body : Bytes) (f : CreateFlags)
    → admits_spec (build_spec body f) ≡ not (ltb_ℤ f.max_unavailable (pos 0))
unfolding build_spec admits_spec admits_strategy
admits_spec-build_spec body f = rw (build_actions_admitted f, build_script_admitted body f) refl

-- The schema admits the resource that `create` builds exactly if --max-unavailable is not negative,
-- whatever the other flags.
pub build_nm-IsAdmitted :
    (name body : Bytes) (f : CreateFlags)
    → IsAdmitted (build_nm name body f) ↔ (ltb_ℤ f.max_unavailable (pos 0) ≡ false)
unfolding build_nm admits_phase
build_nm-IsAdmitted name body f = (
  λ a. ground (arith, a.spec, admits_spec-build_spec body f),
  λ h. record { spec = ground (arith, h, admits_spec-build_spec body f); phase = refl; nodes = tt },
)
