-- ===== src/Prelude/Trim.antt =====
-- `strings.TrimSpace` on printable text.
use kluster_one.Prelude.Tests.{leb}
use kluster_one.Prelude.Lists.{length, All, All-append}
use kluster_one.Prelude.Results.{Bytes}
use kluster_one.Prelude.Spaces.{space_front, space_back, trim_front, trim_space}
use Prim.Native.Nat.{ℕ, zero, suc}
use mathlib.Core.Path.{◌≡◌, refl, ap, ◌∙◌}
use mathlib.Core.Bool.{true, ◌&&◌}
use mathlib.Core.List.{[], ◌∷◌, reverse, reverse-cons, reverse-reverse}
use native.Mathlib.Omega.{arith}

-- Printable ASCII but the space.
abbrev pub IsPrintable : ℕ → Type 0
IsPrintable c = (leb 33 c && leb c 126) ≡ true

pub front_printable : (c : ℕ) (s : Bytes) → IsPrintable c → space_front (c ∷ s) ≡ 0
unfolding space_front
front_printable c [] h = ground arith
front_printable c (a ∷ []) h = ground arith
front_printable c (a ∷ b ∷ s) h = ground arith

back_printable : (c : ℕ) (s : Bytes) → IsPrintable c → space_back (c ∷ s) ≡ 0
unfolding space_back
back_printable c [] h = ground arith
back_printable c (a ∷ []) h = ground arith
back_printable c (a ∷ b ∷ s) h = ground arith

pub trim_front_stops :
    (width : Bytes → ℕ) (f : ℕ) (s : Bytes) → width s ≡ 0 → trim_front width f s ≡ s
unfolding trim_front
trim_front_stops width zero s h = refl
trim_front_stops width (suc f) s h = ground arith

pub All-reverse : (P : ℕ → Type 0) (xs : Bytes) → All P xs → All P (reverse xs)
All-reverse P [] h = tt
All-reverse P (x ∷ xs) (hx, h) =
    rw (reverse-cons x xs) (All-append P (reverse xs) (x ∷ []) (All-reverse P xs h) (hx, tt))

pub back-All : (r : Bytes) → All IsPrintable r → space_back r ≡ 0
back-All [] h = unfold space_back in refl
back-All (c ∷ r) (hc, h) = back_printable c r hc

-- Printable text without spaces has nothing to trim.
pub trim_space_printable : (s : Bytes) → All IsPrintable s → trim_space s ≡ s
unfolding trim_space
trim_space_printable [] h = unfold trim_front space_front space_back in refl
trim_space_printable (c ∷ q) (hc, h) =
    let s = c ∷ q in
    let front : trim_front space_front (length s) s ≡ s =
      trim_front_stops space_front (length s) s (front_printable c q hc) in
    let back : trim_front space_back (length s) (reverse s) ≡ reverse s =
      trim_front_stops space_back (length s) (reverse s)
        (back-All (reverse s) (All-reverse IsPrintable s (hc, h))) in
    ap (λ u. reverse (trim_front space_back (length u) (reverse u))) front
    ∙ ap reverse back
    ∙ reverse-reverse s
