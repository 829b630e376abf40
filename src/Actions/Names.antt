-- ===== src/Actions/Names.antt =====
-- internal/actions/script.go: `runnerPodName` and `sanitizeLabel`. `strings.Map` and `strings.ToLower`
-- walk the runes of a string; `lower` is what `unicode.ToLower` gives beyond ASCII.
pub mod Labels
pub mod Collisions
use kluster_one.Prelude.{
  ℕ, zero, suc, ◌+◌, ◌-◌, ◌*◌, ◌%◌, Bool, true, false, ◌&&◌, ◌||◌, List, [], ◌∷◌, ◌++◌, map, Bytes,
  codes, ltb, leb, ◌==◌, if◌then◌else◌, length, take, drop,
}

abbrev pub in_range : ℕ → ℕ → ℕ → Bool
in_range lo hi c = leb lo c && leb c hi

abbrev pub rune_error : ℕ
rune_error = 0xfffd

-- The second byte's range depends on the first.
abbrev second_ok : ℕ → ℕ → Bool
second_ok a b =
    if a == 0xe0
    then in_range 0xa0 0xbf b
    else if a == 0xed
    then in_range 0x80 0x9f b
    else if a == 0xf0
    then in_range 0x90 0xbf b
    else if a == 0xf4
    then in_range 0x80 0x8f b
    else in_range 0x80 0xbf b

abbrev continues : ℕ → Bool
continues = in_range 0x80 0xbf

-- The first rune of a string and its width: UTF-8, as the language decodes it.
unfoldable pub decode_rune : Bytes → ℕ × ℕ
decode_rune [] = (rune_error, 0)
decode_rune (a ∷ []) = if ltb a 0x80 then (a, 1) else (rune_error, 1)
decode_rune (a ∷ b ∷ []) =
    if ltb a 0x80
    then (a, 1)
    else if in_range 0xc2 0xdf a && continues b
    then (a % 32 * 64 + b % 64, 2)
    else (rune_error, 1)
decode_rune (a ∷ b ∷ c ∷ []) =
    if ltb a 0x80
    then (a, 1)
    else if in_range 0xc2 0xdf a && continues b
    then (a % 32 * 64 + b % 64, 2)
    else if in_range 0xe0 0xef a && second_ok a b && continues c
    then (a % 16 * 4096 + b % 64 * 64 + c % 64, 3)
    else (rune_error, 1)
decode_rune (a ∷ b ∷ c ∷ d ∷ _) =
    if ltb a 0x80
    then (a, 1)
    else if in_range 0xc2 0xdf a && continues b
    then (a % 32 * 64 + b % 64, 2)
    else if in_range 0xe0 0xef a && second_ok a b && continues c
    then (a % 16 * 4096 + b % 64 * 64 + c % 64, 3)
    else if in_range 0xf0 0xf4 a && second_ok a b && continues c && continues d
    then (a % 8 * 262144 + b % 64 * 4096 + c % 64 * 64 + d % 64, 4)
    else (rune_error, 1)

-- Each rune takes a byte or more, so the length is enough fuel.
unfoldable pub runes_from : ℕ → Bytes → List ℕ
unfolding decode_rune
runes_from zero s = []
runes_from (suc f) [] = []
runes_from (suc f) (c ∷ s) =
    let (r, width) = decode_rune (c ∷ s) in r ∷ runes_from f (drop (width - 1) s)

unfoldable pub runes : Bytes → List ℕ
unfolding runes_from
runes s = runes_from (length s) s

-- `strings.ToLower`, rune by rune.
unfoldable pub to_lower : (ℕ → ℕ) → ℕ → ℕ
to_lower lower r = if in_range b'A' b'Z' r then r + 32 else if ltb r 0x80 then r else lower r

abbrev pub is_alnum : ℕ → Bool
is_alnum r = in_range b'a' b'z' r || in_range b'0' b'9' r

-- The mappings of the two functions.
unfoldable pub pod_rune : ℕ → ℕ
pod_rune r = if is_alnum r || (r == b'-') then r else b'-'

unfoldable pub label_rune : ℕ → ℕ
label_rune r = if is_alnum r || (r == b'-') || (r == b'_') || (r == b'.') then r else b'-'

-- `strings.TrimRight(s, "-")`
abbrev trim_cons : ℕ → Bytes → Bytes
trim_cons x [] = if x == b'-' then [] else x ∷ []
trim_cons x (y ∷ s) = x ∷ y ∷ s

unfoldable pub trim_right_dash : Bytes → Bytes
trim_right_dash [] = []
trim_right_dash (x ∷ s) = trim_cons x (trim_right_dash s)

abbrev pub max_label_length : ℕ
max_label_length = 63

-- The mapped runes are ASCII, so they are the bytes of the result, and slicing cuts no rune.
unfoldable pub runner_pod_name : (ℕ → ℕ) → Bytes → Bytes → Bytes
runner_pod_name lower nm_name node_name =
    let raw = codes "nm-" ++ (nm_name ++ (codes "-" ++ node_name)) in
    trim_right_dash (take max_label_length (map (λ r. pod_rune (to_lower lower r)) (runes raw)))

unfoldable pub sanitize_label : (ℕ → ℕ) → Bytes → Bytes
sanitize_label lower s = take max_label_length (map (λ r. label_rune (to_lower lower r)) (runes s))
