-- ===== src/Actions/Names/Collisions.antt =====
-- internal/actions/script.go: the truncation in `runnerPodName` and `sanitizeLabel`.
use mathlib.Core.List.{map-append}
use mathlib.Core.Path.{ap₂}
use kluster_one.Prelude.{
  ℕ, zero, suc, ◌≤◌, ◌<◌, ◌≡◌, refl, sym, ap, ◌∙◌, false, List, [], ◌∷◌, ◌++◌, map, Bytes, codes,
  arith, length, take, All, length-map,
}
use kluster_one.Actions.Names.{
  is_alnum, to_lower, pod_rune, label_rune, trim_right_dash, runner_pod_name, sanitize_label, runes,
}
use kluster_one.Actions.Names.Labels.{LabelByte, runes_ascii, ends_alnum}

abbrev pub IsAscii : Bytes → Type 0
IsAscii = All (λ c. c < 0x80)

runes-append : (p s : Bytes) → IsAscii p → runes (p ++ s) ≡ p ++ runes s
runes-append [] s h = refl
runes-append (c ∷ p) s h = runes_ascii c (p ++ s) h.0 ∙ ap (◌∷◌ c) (runes-append p s h.1)

take-append_le {ℓ} :
    {A : Type ℓ} (n : ℕ) (xs ys : List A) → n ≤ length xs → take n (xs ++ ys) ≡ take n xs
take-append_le zero xs ys h = refl
take-append_le (suc n) [] ys h = absurd (omega arith)
take-append_le (suc n) (x ∷ xs) ys h = ap (◌∷◌ x) (take-append_le n xs ys (omega arith))

-- The name in terms of the resource's name alone, where that fills the 63 bytes.
long_name :
    (lower : ℕ → ℕ) (nm node : Bytes)
    → IsAscii nm
    → 60 ≤ length nm
    → runner_pod_name lower nm node
      ≡ trim_right_dash (take 63 (map (λ r. pod_rune (to_lower lower r)) (codes "nm-" ++ nm)))
unfolding runner_pod_name
long_name lower nm node ascii long =
    let f = λ (r : ℕ). pod_rune (to_lower lower r) in
    let start = codes "nm-" ++ nm in
    let tail = codes "-" ++ node in
    let walked : runes (start ++ tail) ≡ start ++ runes tail =
      runes-append start tail (omega arith, (omega arith, (omega arith, ascii))) in
    ap (λ l. trim_right_dash (take 63 (map f l))) walked
    ∙ ap (λ l. trim_right_dash (take 63 l)) (map-append f start (runes tail))
    ∙ ap trim_right_dash
        (take-append_le 63 (map f start) (map f (runes tail)) (omega (arith, length-map f start)))

-- Where the resource has an ASCII name of 60 bytes or more, all nodes get one and the same runner Pod
-- name.
pub runner_pod_name_collides :
    (lower : ℕ → ℕ) (nm a b : Bytes)
    → IsAscii nm
    → 60 ≤ length nm
    → runner_pod_name lower nm a ≡ runner_pod_name lower nm b
runner_pod_name_collides lower nm a b ascii long =
    long_name lower nm a ascii long ∙ sym (long_name lower nm b ascii long)

LabelByte-fixed :
    (lower : ℕ → ℕ) (c : ℕ) → LabelByte c → (c < 0x80) × (label_rune (to_lower lower c) ≡ c)
unfolding label_rune to_lower
LabelByte-fixed lower c h = ground arith

LabelByte-IsAscii : (lower : ℕ → ℕ) (p : Bytes) → All LabelByte p → IsAscii p
LabelByte-IsAscii lower [] h = tt
LabelByte-IsAscii lower (c ∷ p) h = ((LabelByte-fixed lower c h.0).0, LabelByte-IsAscii lower p h.1)

map-fixed :
    (lower : ℕ → ℕ) (p : Bytes) → All LabelByte p → map (λ r. label_rune (to_lower lower r)) p ≡ p
map-fixed lower [] h = refl
map-fixed lower (c ∷ p) h = λ i. (LabelByte-fixed lower c h.0).1 i ∷ map-fixed lower p h.1 i

ends_alnum-snoc : (p : Bytes) (c : ℕ) → ends_alnum (p ++ c ∷ []) ≡ is_alnum c
ends_alnum-snoc [] c = refl
ends_alnum-snoc (x ∷ []) c = refl
ends_alnum-snoc (x ∷ y ∷ p) c = ends_alnum-snoc (y ∷ p) c

take_snoc {ℓ} :
    {A : Type ℓ} (n : ℕ) (xs : List A) (x : A) (ys : List A)
    → length xs ≡ n
    → take (suc n) (xs ++ x ∷ ys) ≡ xs ++ x ∷ []
take_snoc zero [] x ys h = refl
take_snoc (suc n) [] x ys h = absurd (omega arith)
take_snoc zero (y ∷ xs) x ys h = absurd (omega arith)
take_snoc (suc n) (y ∷ xs) x ys h = ap (◌∷◌ y) (take_snoc n xs x ys (omega arith))

-- A node name whose 63rd byte is a dot, behind 62 lower-case letters, digits and dashes, gives a label
-- value of 63 bytes that ends in the dot, which is no valid label value.
pub sanitize_label_ends_in_dot :
    (lower : ℕ → ℕ) (p s : Bytes)
    → All LabelByte p
    → length p ≡ 62
    → (sanitize_label lower (p ++ b'.' ∷ s) ≡ p ++ b'.' ∷ [])
      × (ends_alnum (sanitize_label lower (p ++ b'.' ∷ s)) ≡ false)
unfolding sanitize_label
sanitize_label_ends_in_dot lower p s h size =
    let f = λ (r : ℕ). label_rune (to_lower lower r) in
    let dot : f b'.' ≡ b'.' = unfold label_rune to_lower in refl in
    let walked : runes (p ++ b'.' ∷ s) ≡ p ++ b'.' ∷ runes s =
      runes-append p (b'.' ∷ s) (LabelByte-IsAscii lower p h)
      ∙ ap (λ l. p ++ l) (runes_ascii b'.' s (omega arith)) in
    let mapped : map f (runes (p ++ b'.' ∷ s)) ≡ p ++ b'.' ∷ map f (runes s) =
      ap (map f) walked
      ∙ map-append f p (b'.' ∷ runes s)
      ∙ ap₂ (λ (l : Bytes) c. l ++ c ∷ map f (runes s)) (map-fixed lower p h) dot in
    let same = ap (take 63) mapped ∙ take_snoc 62 p b'.' (map f (runes s)) size in
    (same, ap ends_alnum same ∙ ends_alnum-snoc p b'.')
