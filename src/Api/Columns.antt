-- ===== src/Api/Columns.antt =====
-- api/v1alpha1/nodemaintenance_types.go: the width of the targets column.
use kluster_one.Prelude.{
  ℕ, ◌-◌, ◌+◌, ◌≤◌, ◌++◌, Bytes, codes, arith, length, length-append, take, length-take, Bool-cases,
  List-cases, inl, inr,
}
use kluster_one.Prelude.Strings.{join}
use kluster_one.Api.{NodeMaintenanceSpec}
use kluster_one.Api.Targets.{
  truncate_for_column, summarize_targets, max_len, ellipsis, selector_parts,
}

truncate_for_column-le : (s : Bytes) (n : ℕ) → 1 ≤ n → length (truncate_for_column s n) ≤ n + 2
unfolding truncate_for_column
truncate_for_column-le s n h =
    ground (arith, length-append (take (n - 1) s) ellipsis, length-take (n - 1) s)

-- The summary of the targets is at most 62 bytes long, whatever the spec: 59 and the three of the
-- ellipsis where it is cut.
pub summarize_targets_fits :
    (spec : NodeMaintenanceSpec) → length (summarize_targets spec) ≤ max_len + 2
unfolding summarize_targets
summarize_targets_fits spec = elim (Bool-cases spec.all_nodes) [
  | inl all ↦ rw all (omega arith)
  | inr some_only ↦ elim (List-cases spec.node_names) [
    | inr (n, ns, named) ↦ ground (
      arith,
      truncate_for_column-le (codes "nodes:" ++ join spec.node_names (codes ",")) max_len
          (omega arith),
    )
    | inl unnamed ↦ elim (List-cases spec.node_selector) [
      | inr (e, es, selected) ↦ ground (
        arith,
        truncate_for_column-le
            (codes "selector:" ++ join (selector_parts spec.node_selector) (codes ",")) max_len
            (omega arith),
      )
      | inl unselected ↦ ground arith
    ]
  ]
]
