-- ===== src/Actions/Script/Ownership.antt =====
-- internal/actions/script.go: the owner references of the ConfigMaps.
use kluster_one.Prelude.{
  ◌≡◌, refl, true, List, [], ◌∷◌, ◌++◌, Bool-cases, inl, inr, arith, sym, append-nil,
}
use kluster_one.Prelude.Strings.{bytes_eq_refl}
use kluster_one.Kube.{OwnerReference}
use kluster_one.Actions.Script.ConfigMaps.{has_owner, add_owner}

has_owner-snoc :
    (o : OwnerReference) (refs : List OwnerReference) → has_owner o.uid (refs ++ o ∷ []) ≡ true
unfolding has_owner
has_owner-snoc o [] = rw (bytes_eq_refl o.uid) refl
has_owner-snoc o (r ∷ refs) = ground (arith, has_owner-snoc o refs)

add_owner_here :
    (o : OwnerReference) (refs : List OwnerReference) → has_owner o.uid (add_owner o refs) ≡ true
unfolding add_owner
add_owner_here o refs = ground (arith, has_owner-snoc o refs)

add_owner_present :
    (o : OwnerReference) (refs : List OwnerReference)
    → has_owner o.uid refs ≡ true
    → add_owner o refs ≡ refs
unfolding add_owner
add_owner_present o refs h = rw h refl

add_owner_keeps :
    (o : OwnerReference) (refs : List OwnerReference)
    → (more : List OwnerReference) × (add_owner o refs ≡ refs ++ more)
unfolding add_owner
add_owner_keeps o refs = elim (Bool-cases (has_owner o.uid refs)) [
  | inl here ↦ ([], rw here (sym (append-nil refs)))
  | inr missing ↦ (o ∷ [], rw missing refl)
]

-- Adding an owner makes its uid one of the owners, keeps the references that were there in front, in
-- their order, and does nothing the second time.
add_owner_once :
    (o : OwnerReference) (refs : List OwnerReference)
    → (has_owner o.uid (add_owner o refs) ≡ true)
      × ((more : List OwnerReference) × (add_owner o refs ≡ refs ++ more))
      × (add_owner o (add_owner o refs) ≡ add_owner o refs)
add_owner_once o refs = (
  add_owner_here o refs,
  add_owner_keeps o refs,
  add_owner_present o (add_owner o refs) (add_owner_here o refs),
)
