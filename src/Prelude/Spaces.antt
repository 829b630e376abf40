-- ===== src/Prelude/Spaces.antt =====
-- `strings.TrimSpace`: the white space of Unicode, by the bytes of its UTF-8.
use kluster_one.Prelude.Tests.{leb, ◌==◌, if◌then◌else◌}
use kluster_one.Prelude.Lists.{length, drop}
use kluster_one.Prelude.Results.{Bytes}
use Prim.Native.Nat.{ℕ, zero, suc}
use mathlib.Core.Bool.{Bool, ◌&&◌, ◌||◌}
use mathlib.Core.List.{[], ◌∷◌, reverse}

abbrev pub is_space : ℕ → Bool
is_space c = (leb 9 c && leb c 13) || (c == 32)

abbrev is_space_2 : ℕ → ℕ → Bool
is_space_2 a b = (a == 0xc2) && ((b == 0x85) || (b == 0xa0))

abbrev is_space_3 : ℕ → ℕ → ℕ → Bool
is_space_3 a b c =
    ((a == 0xe1) && (b == 0x9a) && (c == 0x80))
    || ((a == 0xe2)
        && (b == 0x80)
        && ((leb 0x80 c && leb c 0x8a) || (c == 0xa8) || (c == 0xa9) || (c == 0xaf)))
    || ((a == 0xe2) && (b == 0x81) && (c == 0x9f))
    || ((a == 0xe3) && (b == 0x80) && (c == 0x80))

-- The width of a space at the front, or 0.
unfoldable pub space_front : Bytes → ℕ
space_front [] = 0
space_front (a ∷ []) = if is_space a then 1 else 0
space_front (a ∷ b ∷ []) = if is_space a then 1 else if is_space_2 a b then 2 else 0
space_front (a ∷ b ∷ c ∷ s) =
    if is_space a then 1 else if is_space_2 a b then 2 else if is_space_3 a b c then 3 else 0

-- The same at the end of the string whose reverse this is.
unfoldable pub space_back : Bytes → ℕ
space_back [] = 0
space_back (a ∷ []) = if is_space a then 1 else 0
space_back (a ∷ b ∷ []) = if is_space a then 1 else if is_space_2 b a then 2 else 0
space_back (a ∷ b ∷ c ∷ s) =
    if is_space a then 1 else if is_space_2 b a then 2 else if is_space_3 c b a then 3 else 0

-- A round takes a byte or more, so the length is enough fuel.
unfoldable pub trim_front : (Bytes → ℕ) → ℕ → Bytes → Bytes
trim_front width zero s = s
trim_front width (suc f) s =
    let n = width s in let rest = trim_front width f (drop n s) in if n == 0 then s else rest

unfoldable pub trim_space : Bytes → Bytes
unfolding trim_front space_front space_back
trim_space s =
    let t = trim_front space_front (length s) s in
    reverse (trim_front space_back (length t) (reverse t))
