-- ===== src/Prelude/Split.antt =====
-- `strings.Split` and `strings.IndexByte` with one byte.
use kluster_one.Prelude.Tests.{◌==◌, if◌then◌else◌}
use kluster_one.Prelude.Lists.{length, All}
use kluster_one.Prelude.Results.{Bytes}
use kluster_one.Prelude.Strings.{join}
use Prim.Native.Nat.{ℕ, suc}
use mathlib.Core.Path.{◌≡◌, refl, ap, ◌∙◌}
use mathlib.Core.Bool.{false}
use mathlib.Core.List.{List, [], ◌∷◌, ◌++◌}
use mathlib.Core.Option.{Option, none, some}
use native.Mathlib.Omega.{arith}

-- A byte before the first piece.
abbrev cons_first : ℕ → List Bytes → List Bytes
cons_first c [] = (c ∷ []) ∷ []
cons_first c (p ∷ ps) = (c ∷ p) ∷ ps

unfoldable pub split : Bytes → ℕ → List Bytes
split [] sep = [] ∷ []
split (c ∷ s) sep = let rest = split s sep in if c == sep then [] ∷ rest else cons_first c rest

-- The position of the byte, `none` for -1.
unfoldable pub index_byte : Bytes → ℕ → Option ℕ
index_byte [] b = none
index_byte (c ∷ s) b =
    let rest = index_byte s b in
    if c == b then some 0 else elim rest [ none ↦ none | some i ↦ some (suc i) ]

-- The byte is not the separator.
abbrev pub IsOther : ℕ → ℕ → Type 0
IsOther sep c = (c == sep) ≡ false

split-other : (p : Bytes) (sep : ℕ) → All (IsOther sep) p → split p sep ≡ p ∷ []
unfolding split
split-other [] sep h = refl
split-other (c ∷ p) sep (hc, h) = rw (hc, split-other p sep h) refl

split_first :
    (p s : Bytes) (sep : ℕ) → All (IsOther sep) p → split (p ++ sep ∷ s) sep ≡ p ∷ split s sep
unfolding split
split_first [] s sep h = ground arith
split_first (c ∷ p) s sep (hc, h) = rw (hc, split_first p s sep h) refl

pub split-join :
    (p : Bytes) (ps : List Bytes) (sep : ℕ)
    → All (All (IsOther sep)) (p ∷ ps)
    → split (join (p ∷ ps) (sep ∷ [])) sep ≡ p ∷ ps
unfolding join
split-join p [] sep (hp, h) = split-other p sep hp
split-join p (q ∷ ps) sep (hp, h) =
    split_first p (join (q ∷ ps) (sep ∷ [])) sep hp ∙ ap (λ x. p ∷ x) (split-join q ps sep h)

pub index_byte-append :
    (k s : Bytes) (b : ℕ) → All (IsOther b) k → index_byte (k ++ b ∷ s) b ≡ some (length k)
unfolding index_byte
index_byte-append [] s b h = ground arith
index_byte-append (c ∷ k) s b (hc, h) = rw (hc, index_byte-append k s b h) refl
