-- ===== src/Cli/Format.antt =====
-- internal/cli/status_logs.go: `orDash` and `truncate`.
use kluster_one.Prelude.{
  ℕ, ◌-◌, [], ◌∷◌, ◌++◌, Bytes, codes, ltb, ◌==◌, if◌then◌else◌, length, take, map,
}
use kluster_one.Api.Targets.{ellipsis}

unfoldable pub or_dash : Bytes → Bytes
or_dash [] = codes "-"
or_dash (c ∷ s) = c ∷ s

-- `strings.ReplaceAll(s, "\n", " ")`
one_line : Bytes → Bytes
one_line s = map (λ c. if c == 10 then 32 else c) s

unfoldable pub truncate : Bytes → ℕ → Bytes
unfolding one_line
truncate s n = let t = one_line s in if ltb n (length t) then take (n - 1) t ++ ellipsis else t
