-- ===== src/Cli/Payload.antt =====
-- internal/cli/copy.go: `extractPayload`, which takes the file out of what the pod wrote.
pub mod Panics
use kluster_one.Prelude.{
  ℕ, suc, ◌+◌, ◌-◌, Bool, true, false, ◌&&◌, [], ◌∷◌, Option, none, some, Result, ok, err, errorf,
  Bytes, codes, leb, ◌==◌, if◌then◌else◌, length, take, drop,
}
use kluster_one.Prelude.Spaces.{trim_space}

abbrev pub pull_sentinel_begin : Bytes
pull_sentinel_begin = codes "---KO-FILE-BEGIN---"

abbrev pub pull_sentinel_end : Bytes
pull_sentinel_end = codes "---KO-FILE-END---"

-- `strings.HasPrefix(s, p)`
unfoldable pub has_prefix : Bytes → Bytes → Bool
has_prefix s [] = true
has_prefix [] (x ∷ p) = false
has_prefix (y ∷ s) (x ∷ p) = (y == x) && has_prefix s p

-- `strings.Index(s, p)`, with `none` for -1.
unfoldable pub index : Bytes → Bytes → Option ℕ
unfolding has_prefix
index [] p = if has_prefix [] p then some 0 else none
index (c ∷ s) p =
    let rest = index s p in
    if has_prefix (c ∷ s) p then some 0 else elim rest [ none ↦ none | some i ↦ some (suc i) ]

-- The slice `s[a:b]`, with `none` for the panic of a slice out of range.
unfoldable pub slice : Bytes → ℕ → ℕ → Option Bytes
slice s a b = if leb a b && leb b (length s) then some (take (b - a) (drop a s)) else none

-- `none` is the panic of the slice.
unfoldable pub extract_payload : Bytes → Option (Result Bytes)
unfolding index slice
extract_payload s =
    let missing = err (
      errorf (
        codes
          "payload sentinels not found in captured output (file probably missing or script failed)")) in
    elim (index s pull_sentinel_begin) [
      | none ↦ some missing
      | some b ↦ elim (index s pull_sentinel_end) [
        | none ↦ some missing
        | some e ↦
            if leb e b then some missing else elim (slice s (b + length pull_sentinel_begin) e) [
              | none ↦ none
              | some payload ↦ some (ok (trim_space payload))
            ]
      ]
    ]
