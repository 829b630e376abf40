-- ===== src/Cli/Copy/Targets.antt =====
-- internal/cli/copy.go: the targets of `push` and `pull`, next to those of `create`.
use kluster_one.Prelude.{
  ◌≡◌, ◌≢◌, refl, ap, ◌⊎◌, inl, inr, true, false, List, [], ◌∷◌, ok, Bytes, arith, List-cases,
}
use kluster_one.Prelude.Int.{ℤ}
use kluster_one.Api.{completed}
use kluster_one.Kube.{Kube}
use kluster_one.Orchestrator.{resolve_nodes, init}
use kluster_one.Orchestrator.Resolve.{resolve_same}
use kluster_one.Orchestrator.Fresh.{init-Seeded}
use kluster_one.Cli.Args.{is_empty}
use kluster_one.Cli.Create.{CreateFlags, csv_names, build_spec}
use kluster_one.Cli.Copy.{CopyTargets, copy_spec, build_copy_nm}

-- The target flags of `create`, as `push` has them.
abbrev pub targets_of : CreateFlags → CopyTargets
targets_of f = record { all_nodes = f.all_nodes; selector = f.selector; nodes_csv = f.nodes }

same_names :
    (f : CreateFlags) (body body' : Bytes) (secs : ℤ)
    → (copy_spec (targets_of f) body secs).node_names ≡ (build_spec body' f).node_names
unfolding copy_spec build_spec
same_names f body body' secs = refl

same_all :
    (f : CreateFlags) (body body' : Bytes) (secs : ℤ)
    → (copy_spec (targets_of f) body secs).all_nodes ≡ (build_spec body' f).all_nodes
unfolding copy_spec build_spec
same_all f body body' secs = refl

-- The list of nodes names a node or is not given, or there is no selector.
abbrev pub IsClear : CreateFlags → Type 0
IsClear f = (csv_names f.nodes ≢ []) ⊎ (is_empty f.nodes ≡ true) ⊎ (is_empty f.selector ≡ true)

blank_names : (nodes : Bytes) → is_empty nodes ≡ true → csv_names nodes ≡ []
unfolding csv_names
blank_names [] h = refl
blank_names (c ∷ s) h = ground arith

named_flag : (nodes : Bytes) → csv_names nodes ≢ [] → is_empty nodes ≡ false
unfolding csv_names
named_flag [] h = absurd (h refl)
named_flag (c ∷ s) h = refl

same_selector :
    (f : CreateFlags) (body body' : Bytes) (secs : ℤ)
    → IsClear f
    → (copy_spec (targets_of f) body secs).node_selector ≡ (build_spec body' f).node_selector
unfolding copy_spec build_spec
same_selector f body body' secs (inl named) = elim (List-cases (csv_names f.nodes)) [
  | inl none_named ↦ absurd (named none_named)
  | inr (n, ns, listed) ↦ ground (arith, listed, named_flag f.nodes named)
]
same_selector f body body' secs (inr (inl missing)) = ground (arith, blank_names f.nodes missing)
same_selector f body body' secs (inr (inr unselected)) = ground (arith, unselected)

module _ (K : Kube) where
  open K use {World}

  -- `push` and `create` mean the same by their target flags: the resources that they build are resolved to
  -- the same nodes, on any cluster, if the list of nodes names one or is not given, or if there is no
  -- selector.
  pub resolve_nodes-copy_spec :
      (f : CreateFlags) (body body' : Bytes) (secs : ℤ) (w : World)
      → IsClear f
      → resolve_nodes K (copy_spec (targets_of f) body secs) w
        ≡ resolve_nodes K (build_spec body' f) w
  resolve_nodes-copy_spec f body body' secs w clear =
      resolve_same K (copy_spec (targets_of f) body secs) (build_spec body' f) w
        (same_all f body body' secs) (same_names f body body' secs)
        (same_selector f body body' secs clear)

  resolve_blank :
      (t : CopyTargets) (body : Bytes) (secs : ℤ) (w : World)
      → t.all_nodes ≡ false
      → is_empty t.nodes_csv ≡ false
      → csv_names t.nodes_csv ≡ []
      → resolve_nodes K (copy_spec t body secs) w ≡ (ok [], w)
  unfolding resolve_nodes copy_spec
  resolve_blank t body secs w some_nodes given blank = ground (arith, some_nodes, given, blank)

  -- A copy to a list of nodes that has only blanks and commas is Completed without a node: whatever the
  -- selector says, if --all-nodes is not given, `Init` of the resource sets the phase that the plugin waits
  -- for, and no node gets a status.
  pub init-build_copy_nm_blank :
      (name : Bytes) (t : CopyTargets) (body : Bytes) (secs : ℤ) (extra : List (Bytes × Bytes))
      (w : World)
      → t.all_nodes ≡ false
      → is_empty t.nodes_csv ≡ false
      → csv_names t.nodes_csv ≡ []
      → let nm = (init K (build_copy_nm name t body secs extra) w).0 in
        (nm.status.phase ≡ completed) × (nm.status.nodes ≡ [])
  unfolding build_copy_nm
  init-build_copy_nm_blank name t body secs extra w some_nodes given blank =
      let (_, seeded) =
        init-Seeded K (build_copy_nm name t body secs extra) w [] refl
          (ap (λ r. r.0) (resolve_blank t body secs w some_nodes given blank)) in
      (seeded.ended refl, seeded.nodes)
