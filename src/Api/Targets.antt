-- ===== src/Api/Targets.antt =====
-- api/v1alpha1/nodemaintenance_types.go: `SummarizeTargets` and `truncateForColumn`.
use kluster_one.Prelude.{
  ℕ, ◌-◌, List, [], ◌∷◌, ◌++◌, map, some, none, leb, if◌then◌else◌, length, take, Bytes, codes,
}
use kluster_one.Prelude.Strings.{join, sort, lookup}
use kluster_one.Api.{NodeMaintenanceSpec}

-- "…" in UTF-8.
abbrev pub ellipsis : Bytes
ellipsis = 0xe2 ∷ 0x80 ∷ 0xa6 ∷ []

unfoldable pub truncate_for_column : Bytes → ℕ → Bytes
truncate_for_column str n = if leb (length str) n then str else take (n - 1) str ++ ellipsis

abbrev pub max_len : ℕ
max_len = 60

-- `s.NodeSelector[k]`, the empty string for a missing key.
abbrev pub selector_value : List (Bytes × Bytes) → Bytes → Bytes
selector_value m k = elim (lookup k m) [ none ↦ [] | some v ↦ v ]

abbrev pub selector_parts : List (Bytes × Bytes) → List Bytes
selector_parts m = map (λ k. k ++ (codes "=" ++ selector_value m k)) (sort (map (λ e. e.0) m))

unfoldable pub summarize_targets : NodeMaintenanceSpec → Bytes
unfolding truncate_for_column
summarize_targets s = if s.all_nodes then codes "all" else elim s.node_names [
  | _ ∷ _ ↦ truncate_for_column (codes "nodes:" ++ join s.node_names (codes ",")) max_len
  | [] ↦ elim s.node_selector [
    | _ ∷ _ ↦
        truncate_for_column (codes "selector:" ++ join (selector_parts s.node_selector) (codes ","))
          max_len
    | [] ↦ []
  ]
]
