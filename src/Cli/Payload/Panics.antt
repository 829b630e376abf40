-- ===== src/Cli/Payload/Panics.antt =====
-- internal/cli/copy.go: when the slice of `extractPayload` panics.
use kluster_one.Prelude.{
  ℕ, suc, ◌+◌, ◌≤◌, ◌<◌, ◌≡◌, ◌↔◌, inl, inr, [], ◌∷◌, none, some, Bytes, arith, length, Bool-cases,
  Option-cases,
}
use kluster_one.Cli.Payload.{
  pull_sentinel_begin, pull_sentinel_end, has_prefix, index, slice, extract_payload,
}

-- The first end sentinel starts inside the first begin sentinel, behind its first byte.
pub record Overlap (s : Bytes) : Type 0 where
  pub begin : ℕ
  pub end : ℕ
  pub opens : index s pull_sentinel_begin ≡ some begin
  pub closes : index s pull_sentinel_end ≡ some end
  pub behind : begin < end
  pub inside : end < begin + length pull_sentinel_begin

index_bound : (s p : Bytes) (i : ℕ) → index s p ≡ some i → i ≤ length s
unfolding index
index_bound [] p i h = elim (Bool-cases (has_prefix [] p)) [
  | inl there ↦ ground (arith, h, there)
  | inr missing ↦ absurd (ground (arith, h, missing))
]
index_bound (c ∷ s) p i h = elim (Bool-cases (has_prefix (c ∷ s) p)) [
  | inl there ↦ ground (arith, h, there)
  | inr later ↦ elim (Option-cases (index s p)) [
    | inl absent ↦ absurd (ground (arith, h, later, absent))
    | inr (j, found) ↦
        let next : suc j ≡ i = ground (arith, h, later, found) in
        omega (arith, next, index_bound s p j found)
  ]
]

slice_panics : (s : Bytes) (a b : ℕ) → b ≤ length s → (slice s a b ≡ none) ↔ (b < a)
unfolding slice
slice_panics s a b h = ground (arith, h)

-- `extractPayload` panics on a text exactly if the first end sentinel in it starts inside the first begin
-- sentinel, behind its first byte: on every other text, whatever a pod wrote, it returns.
pub extract_payload_panics : (s : Bytes) → (extract_payload s ≡ none) ↔ Overlap s
unfolding extract_payload
extract_payload_panics s = elim (Option-cases (index s pull_sentinel_begin)) [
  | inl unopened ↦
      (λ h. absurd (ground (arith, h, unopened)), λ o. absurd (ground (arith, unopened, o.opens)))
  | inr (b, opens) ↦ elim (Option-cases (index s pull_sentinel_end)) [
    | inl unclosed ↦ (
      λ h. absurd (ground (arith, h, opens, unclosed)),
      λ o. absurd (ground (arith, unclosed, o.closes)),
    )
    | inr (e, closes) ↦
        let (to, from) =
          slice_panics s (b + length pull_sentinel_begin) e
            (index_bound s pull_sentinel_end e closes) in
        (
          λ h. record {
            begin = b;
            end = e;
            opens = opens;
            closes = closes;
            behind = ground (arith, h, opens, closes);
            inside = ground (arith, h, opens, closes, to);
          },
          λ o.
              let begins : o.begin ≡ b = ground (arith, opens, o.opens) in
              let ends : o.end ≡ e = ground (arith, closes, o.closes) in
              ground (arith, opens, closes, begins, ends, o.behind, o.inside, from),
        )
  ]
]
