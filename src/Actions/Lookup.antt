-- ===== src/Actions/Lookup.antt =====
-- internal/actions/action.go: `Register` and `Get` as a map.
use kluster_one.Prelude.{◌≡◌, refl, true, false, ap, [], ◌∷◌, ok, arith, Bool-cases, inl, inr}
use kluster_one.Prelude.Strings.{bytes_eq, bytes_eq_sound, bytes_eq_refl}
use kluster_one.Api.{ActionType, action_name}
use kluster_one.Kube.{Kube}
use kluster_one.Actions.{Action, Registry, action_type_eq, register, get_action}

action_type_eq_refl : (t : ActionType) → action_type_eq t t ≡ true
unfolding action_type_eq
action_type_eq_refl t = bytes_eq_refl (action_name t)

-- Types of the same name are told apart by no test.
action_type_eq-cong :
    (t u v : ActionType) → action_type_eq t u ≡ true → action_type_eq t v ≡ action_type_eq u v
unfolding action_type_eq
action_type_eq-cong t u v h =
    ap (λ n. bytes_eq n (action_name v)) (bytes_eq_sound (action_name t) (action_name u) h)

module _ (K : Kube) where
  get_action-register_same :
      (t : ActionType) (a : Action K) (reg : Registry K)
      → get_action K t (register K t a reg) ≡ ok a
  unfolding get_action register
  get_action-register_same t a [] = rw (action_type_eq_refl t) refl
  get_action-register_same t a ((n, b) ∷ reg) =
      ground (arith, action_type_eq_refl t, get_action-register_same t a reg)

  get_action-register_other :
      (t u : ActionType) (a : Action K) (reg : Registry K)
      → action_type_eq t u ≡ false
      → get_action K u (register K t a reg) ≡ get_action K u reg
  unfolding get_action register
  get_action-register_other t u a [] h = rw h refl
  get_action-register_other t u a ((n, b) ∷ reg) h = elim (Bool-cases (action_type_eq n t)) [
    | inl hit ↦ rw (hit, h) (rw (action_type_eq-cong n t u hit, h) refl)
    | inr miss ↦ rw miss (rw (get_action-register_other t u a reg h) refl)
  ]

  -- Registering an action under a type makes it what the registry gives for that type, and changes
  -- nothing for a type of another name.
  pub get_action-register :
      (t u : ActionType) (a : Action K) (reg : Registry K)
      → action_type_eq t u ≡ false
      → (get_action K t (register K t a reg) ≡ ok a)
        × (get_action K u (register K t a reg) ≡ get_action K u reg)
  get_action-register t u a reg other =
      (get_action-register_same t a reg, get_action-register_other t u a reg other)
