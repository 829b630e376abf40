-- ===== src/Cli/Pull.antt =====
-- internal/cli/copy.go: `extractPayload` on what the pull script prints.
use mathlib.Core.List.{reverse, reverse-append, reverse-reverse}
use kluster_one.Prelude.{
  ℕ, suc, ◌+◌, ◌-◌, ◌≤◌, ◌≡◌, refl, sym, ap, ◌∙◌, Bool, true, false, not, ◌&&◌, [], ◌∷◌, ◌++◌, some,
  ok, Bytes, leb, ◌==◌, arith, length, take, drop, All, take-append, append_assoc, length-append,
}
use kluster_one.Prelude.Trim.{IsPrintable, front_printable, trim_front_stops, back-All, All-reverse}
use kluster_one.Prelude.Spaces.{trim_space, trim_front, space_front, space_back}
use kluster_one.Cli.Payload.{
  pull_sentinel_begin, pull_sentinel_end, has_prefix, index, slice, extract_payload,
}

-- Printable ASCII but the space and the dash: base64 is made of such.
abbrev pub IsPlain : ℕ → Type 0
IsPlain c = (leb 33 c && leb c 126 && not (c == b'-')) ≡ true

IsPrintable-of_IsPlain : (c : ℕ) → IsPlain c → IsPrintable c
IsPrintable-of_IsPlain c h = ground (arith, h)

plain-All : (s : Bytes) → All IsPlain s → All IsPrintable s
plain-All [] h = tt
plain-All (c ∷ s) (hc, h) = (IsPrintable-of_IsPlain c hc, plain-All s h)

-- What the pull script prints for the base64 text.
abbrev pub pulled : Bytes → Bytes
pulled p = pull_sentinel_begin ++ (10 ∷ (p ++ (10 ∷ (pull_sentinel_end ++ (10 ∷ [])))))

front_newline : (s : Bytes) → space_front (10 ∷ s) ≡ 1
unfolding space_front
front_newline [] = refl
front_newline (a ∷ []) = refl
front_newline (a ∷ b ∷ s) = refl

back_newline : (s : Bytes) → space_back (10 ∷ s) ≡ 1
unfolding space_back
back_newline [] = refl
back_newline (a ∷ []) = refl
back_newline (a ∷ b ∷ s) = refl

-- A newline in front goes, and the text behind it stays.
trim_front_newline :
    (width : Bytes → ℕ) (f : ℕ) (s : Bytes)
    → width (10 ∷ s) ≡ 1
    → width s ≡ 0
    → trim_front width (suc f) (10 ∷ s) ≡ s
unfolding trim_front
trim_front_newline width f s one none_left = rw (one, trim_front_stops width f s none_left) refl

-- A text that the sentinel does not stand in front of.
index_later :
    (c : ℕ) (s q : Bytes) (i : ℕ)
    → has_prefix (c ∷ s) q ≡ false
    → index s q ≡ some i
    → index (c ∷ s) q ≡ some (suc i)
unfolding index
index_later c s q i h e = rw (h, e) refl

no_dash : (c : ℕ) (s : Bytes) → IsPlain c → has_prefix (c ∷ s) pull_sentinel_end ≡ false
unfolding has_prefix
no_dash c s h = ground arith

index-plain :
    (p s : Bytes) (i : ℕ)
    → All IsPlain p
    → index s pull_sentinel_end ≡ some i
    → index (p ++ s) pull_sentinel_end ≡ some (length p + i)
index-plain [] s i h e = ground (arith, e)
index-plain (c ∷ p) s i (hc, h) e =
    let later = index-plain p s i h e in
    ground
      (arith, index_later c (p ++ s) pull_sentinel_end (length p + i) (no_dash c (p ++ s) hc) later)

-- The sentinel stands at no position of the first text, also where it would reach into the second.
abbrev stands_nowhere : Bytes → Bytes → Bytes → Bool
stands_nowhere [] s q = true
stands_nowhere (c ∷ pre) s q = not (has_prefix (c ∷ (pre ++ s)) q) && stands_nowhere pre s q

index_skip :
    (pre s q : Bytes) (i : ℕ)
    → stands_nowhere pre s q ≡ true
    → index s q ≡ some i
    → index (pre ++ s) q ≡ some (length pre + i)
index_skip [] s q i h e = ground (arith, e)
index_skip (c ∷ pre) s q i h e =
    let later = index_skip pre s q i (ground (arith, h)) e in
    ground (arith, index_later c (pre ++ s) q (length pre + i) (ground (arith, h)) later)

abbrev header : Bytes
header = pull_sentinel_begin ++ 10 ∷ []

index_end :
    (p : Bytes) → All IsPlain p → index (pulled p) pull_sentinel_end ≡ some (20 + (length p + 1))
unfolding has_prefix index
index_end p h =
    let rest = 10 ∷ pull_sentinel_end ++ 10 ∷ [] in
    let there : index rest pull_sentinel_end ≡ some 1 = refl in
    let found = index-plain p rest 1 h there in
    index_skip header (p ++ rest) pull_sentinel_end (length p + 1) refl found

index_begin : (p : Bytes) → index (pulled p) pull_sentinel_begin ≡ some 0
unfolding index has_prefix
index_begin p = refl

abbrev lines : Bytes → Bytes
lines p = 10 ∷ p ++ 10 ∷ []

slice_in_range :
    (s : Bytes) (a b : ℕ) → a ≤ b → b ≤ length s → slice s a b ≡ some (take (b - a) (drop a s))
unfolding slice
slice_in_range s a b h h' = ground arith

newline_between : (p r : Bytes) → 10 ∷ (p ++ 10 ∷ r) ≡ lines p ++ r
newline_between p r = ap (λ l. 10 ∷ l) (sym (append_assoc p (10 ∷ []) r))

slice-pulled :
    (p : Bytes)
    → slice (pulled p) (length pull_sentinel_begin) (20 + (length p + 1)) ≡ some (lines p)
slice-pulled p =
    let rest = pull_sentinel_end ++ 10 ∷ [] in
    let behind : drop 19 (pulled p) ≡ lines p ++ rest = newline_between p rest in
    let size : 20 + (length p + 1) - 19 ≡ length (lines p) =
      omega (arith, length-append p (10 ∷ [])) in
    slice_in_range (pulled p) 19 (20 + (length p + 1)) (omega arith)
      (omega (arith, length-append p (10 ∷ rest)))
    ∙ ap (λ l. some (take (20 + (length p + 1) - 19) l)) behind
    ∙ ap (λ n. some (take n (lines p ++ rest))) size
    ∙ ap some (take-append (lines p) rest)

-- The newlines around the text go.
trim_space-lines : (p : Bytes) → All IsPlain p → trim_space (lines p) ≡ p
unfolding trim_space
trim_space-lines [] h = unfold trim_front space_front space_back in refl
trim_space-lines (c ∷ q) (hc, h) =
    let p = c ∷ q in
    let t = p ++ 10 ∷ [] in
    let front : trim_front space_front (length (lines p)) (lines p) ≡ t =
      trim_front_newline space_front (length t) t (front_newline t)
        (front_printable c (q ++ 10 ∷ []) (IsPrintable-of_IsPlain c hc)) in
    let turned : reverse t ≡ 10 ∷ reverse p = reverse-append p (10 ∷ []) in
    let back : trim_front space_back (length t) (10 ∷ reverse p) ≡ reverse p =
      trim_front_newline space_back (length (q ++ 10 ∷ [])) (reverse p) (back_newline (reverse p)) (
        back-All (reverse p)
          (All-reverse (λ d. IsPrintable d) p (IsPrintable-of_IsPlain c hc, plain-All q h))) in
    ap (λ u. reverse (trim_front space_back (length u) (reverse u))) front
    ∙ ap (λ u. reverse (trim_front space_back (length t) u)) turned
    ∙ ap reverse back
    ∙ reverse-reverse p

extract_found :
    (s payload : Bytes) (b e : ℕ)
    → index s pull_sentinel_begin ≡ some b
    → index s pull_sentinel_end ≡ some e
    → leb e b ≡ false
    → slice s (b + length pull_sentinel_begin) e ≡ some payload
    → extract_payload s ≡ some (ok (trim_space payload))
unfolding extract_payload
extract_found s payload b e begin end after cut = rw (extract_payload, begin, end, after, cut) refl

-- The file comes back: what the pull script prints for a text of printable ASCII without spaces and
-- dashes, as base64 is, `extractPayload` takes out again.
pub extract_payload-pulled : (p : Bytes) → All IsPlain p → extract_payload (pulled p) ≡ some (ok p)
extract_payload-pulled p h =
    extract_found (pulled p) (lines p) 0 (20 + (length p + 1)) (index_begin p) (index_end p h)
      (ground arith) (slice-pulled p)
    ∙ ap (λ t. some (ok t)) (trim_space-lines p h)
