-- ===== src/Actions/Names/Labels.antt =====
-- internal/actions/script.go: the form of the runner Pod's name.
use kluster_one.Prelude.{
  ℕ, ◌≤◌, ◌<◌, ◌≡◌, refl, Bool, true, false, ◌||◌, List, [], ◌∷◌, ◌++◌, map, Bytes, codes, arith,
  ◌==◌, length, take, All, All-take, length-take, inl, inr, ◌⊎◌,
}
use kluster_one.Actions.Names.{
  is_alnum, to_lower, pod_rune, trim_right_dash, runner_pod_name, runes, runes_from, decode_rune,
}

-- A letter, a digit or a dash.
abbrev pub LabelByte : ℕ → Type 0
LabelByte c = is_alnum c || (c == b'-') ≡ true

abbrev pub starts_alnum : Bytes → Bool
starts_alnum [] = false
starts_alnum (c ∷ s) = is_alnum c

abbrev pub ends_alnum : Bytes → Bool
ends_alnum [] = false
ends_alnum (c ∷ []) = is_alnum c
ends_alnum (c ∷ d ∷ s) = ends_alnum (d ∷ s)

-- `validation.IsDNS1123Label`: at most 63 lower-case letters, digits and dashes, a letter or a digit
-- at both ends.
pub record IsDns1123Label (s : Bytes) : Type 0 where
  pub short : length s ≤ 63
  pub made_of : All LabelByte s
  pub starts : starts_alnum s ≡ true
  pub ends : ends_alnum s ≡ true

pod_rune-LabelByte : (r : ℕ) → LabelByte (pod_rune r)
unfolding pod_rune
pod_rune-LabelByte r = ground arith

map-LabelByte : (f : ℕ → ℕ) (rs : List ℕ) → All LabelByte (map (λ r. pod_rune (f r)) rs)
map-LabelByte f [] = tt
map-LabelByte f (r ∷ rs) = (pod_rune-LabelByte (f r), map-LabelByte f rs)

trim-LabelByte : (s : Bytes) → All LabelByte s → All LabelByte (trim_right_dash s)
unfolding trim_right_dash
trim-LabelByte [] h = tt
trim-LabelByte (c ∷ s) h = ground (arith, trim-LabelByte s h.1)

length-trim : (s : Bytes) → length (trim_right_dash s) ≤ length s
unfolding trim_right_dash
length-trim [] = omega arith
length-trim (c ∷ s) = ground (arith, length-trim s)

trim_ends :
    (s : Bytes)
    → All LabelByte s
    → (trim_right_dash s ≡ []) ⊎ (ends_alnum (trim_right_dash s) ≡ true)
unfolding trim_right_dash
trim_ends [] h = inl refl
trim_ends (c ∷ s) h = ground (arith, trim_ends s h.1)

-- An ASCII byte is a rune.
decode_rune_ascii : (c : ℕ) (s : Bytes) → c < 0x80 → decode_rune (c ∷ s) ≡ (c, 1)
unfolding decode_rune
decode_rune_ascii c [] h = ground arith
decode_rune_ascii c (x ∷ []) h = ground arith
decode_rune_ascii c (x ∷ y ∷ []) h = ground arith
decode_rune_ascii c (x ∷ y ∷ z ∷ s) h = ground arith

pub runes_ascii : (c : ℕ) (s : Bytes) → c < 0x80 → runes (c ∷ s) ≡ c ∷ runes s
unfolding runes runes_from
runes_ascii c s h = rw (decode_rune_ascii c s h, runes_from)

trim_starts :
    (c : ℕ) (s : Bytes) → is_alnum c ≡ true → starts_alnum (trim_right_dash (c ∷ s)) ≡ true
unfolding trim_right_dash
trim_starts c s h = ground arith

label_of :
    (c : ℕ) (s : Bytes)
    → is_alnum c ≡ true
    → All LabelByte s
    → IsDns1123Label (trim_right_dash (take 63 (c ∷ s)))
label_of c s h hs =
    let first = trim_starts c (take 62 s) h in
    let all : All LabelByte (c ∷ take 62 s) = (rw h refl, All-take LabelByte 62 s hs) in
    record {
      short = omega (arith, length-trim (c ∷ take 62 s), length-take 62 s);
      made_of = trim-LabelByte (c ∷ take 62 s) all;
      starts = first;
      ends = elim (trim_ends (c ∷ take 62 s) all) [ inl empty ↦ ground arith | inr e ↦ e ];
    }

-- The runner Pod's name is a valid DNS-1123 label, for all names and in particular for names that are
-- not, or that are longer than 63 bytes. (Nothing is assumed of `unicode.ToLower` beyond ASCII.)
pub runner_pod_name-IsDns1123Label :
    (lower : ℕ → ℕ) (nm_name node_name : Bytes)
    → IsDns1123Label (runner_pod_name lower nm_name node_name)
unfolding runner_pod_name
runner_pod_name-IsDns1123Label lower nm_name node_name =
    let f = λ (r : ℕ). pod_rune (to_lower lower r) in
    let rest = codes "m-" ++ (nm_name ++ (codes "-" ++ node_name)) in
    let n_first : pod_rune (to_lower lower b'n') ≡ b'n' = unfold pod_rune to_lower in refl in
    rw (runes_ascii b'n' rest (omega arith), n_first)
      (label_of b'n' (map f (runes rest)) refl (map-LabelByte (to_lower lower) (runes rest)))
