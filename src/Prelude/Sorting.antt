-- ===== src/Prelude/Sorting.antt =====
-- `sort` of Strings: order and number of the strings in its value.
use kluster_one.Prelude.{
  ℕ, suc, ◌≡◌, refl, ap, ◌∙◌, length, true, false, List, [], ◌∷◌, arith, Bool-cases, inl, inr,
  Bytes, count_if,
}
use kluster_one.Prelude.Strings.{bytes_le, bytes_eq, insert_sorted, sort}

abbrev pub IsSorted : List Bytes → Type 0
IsSorted [] = Unit
IsSorted (x ∷ []) = Unit
IsSorted (x ∷ y ∷ ys) = (bytes_le x y ≡ true) × IsSorted (y ∷ ys)

abbrev pub occurrences : Bytes → List Bytes → ℕ
occurrences s = count_if (λ t. bytes_eq s t)

bytes_le_total : (s t : Bytes) → bytes_le s t ≡ false → bytes_le t s ≡ true
unfolding bytes_le
bytes_le_total [] t h = ground arith
bytes_le_total (x ∷ xs) [] h = refl
bytes_le_total (x ∷ xs) (y ∷ ys) h = ground (arith, bytes_le_total xs ys)

insert_sorted-IsSorted : (x : Bytes) (xs : List Bytes) → IsSorted xs → IsSorted (insert_sorted x xs)
unfolding insert_sorted
insert_sorted-IsSorted x [] h = tt
insert_sorted-IsSorted x (y ∷ []) h = elim (Bool-cases (bytes_le x y)) [
  | inl le ↦ rw le (le, h)
  | inr gt ↦ rw gt (bytes_le_total x y gt, tt)
]
insert_sorted-IsSorted x (y ∷ z ∷ ys) (yz, h) = elim (Bool-cases (bytes_le x y)) [
  | inl le ↦ rw le (le, (yz, h))
  | inr gt ↦
      let rest = insert_sorted-IsSorted x (z ∷ ys) h in
      elim (Bool-cases (bytes_le x z)) [
        | inl le ↦ rw (gt, le) (bytes_le_total x y gt, (le, h))
        | inr gt' ↦ rw (gt, gt') (yz, (rw gt' at rest))
      ]
]

pub sort-IsSorted : (xs : List Bytes) → IsSorted (sort xs)
unfolding sort
sort-IsSorted [] = tt
sort-IsSorted (x ∷ xs) = insert_sorted-IsSorted x (sort xs) (sort-IsSorted xs)

occurrences-insert_sorted :
    (s x : Bytes) (xs : List Bytes) → occurrences s (insert_sorted x xs) ≡ occurrences s (x ∷ xs)
unfolding insert_sorted
occurrences-insert_sorted s x [] = refl
occurrences-insert_sorted s x (y ∷ ys) = ground (arith, occurrences-insert_sorted s x ys)

pub occurrences-sort : (s : Bytes) (xs : List Bytes) → occurrences s (sort xs) ≡ occurrences s xs
unfolding sort
occurrences-sort s [] = refl
occurrences-sort s (x ∷ xs) =
    ground (arith, occurrences-sort s xs, occurrences-insert_sorted s x (sort xs))

length-insert_sorted : (x : Bytes) (xs : List Bytes) → length (insert_sorted x xs) ≡ suc (length xs)
unfolding insert_sorted
length-insert_sorted x [] = refl
length-insert_sorted x (y ∷ ys) = ground (arith, length-insert_sorted x ys)

pub length-sort : (xs : List Bytes) → length (sort xs) ≡ length xs
unfolding sort
length-sort [] = refl
length-sort (x ∷ xs) = length-insert_sorted x (sort xs) ∙ ap suc (length-sort xs)
