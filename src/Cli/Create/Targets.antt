-- ===== src/Cli/Create/Targets.antt =====
-- internal/cli/create.go: the targets, from the flags to the nodes that a run gets.
use kluster_one.Prelude.{
  ◌≡◌, refl, ◌∙◌, ap, false, List, [], ◌∷◌, map, ok, Bytes, codes, arith, All,
}
use kluster_one.Prelude.Strings.{join, sort}
use kluster_one.Prelude.Trim.{trim_space_printable}
use kluster_one.Prelude.Split.{IsOther, split-join}
use kluster_one.Api.{NodeMaintenanceSpec}
use kluster_one.Kube.{Kube, from_set}
use kluster_one.Orchestrator.{resolve_nodes, list_all_nodes}
use kluster_one.Cli.Args.{is_empty}
use kluster_one.Cli.Create.{CreateFlags, csv_names, trimmed_names, parse_selector, build_spec}
use kluster_one.Cli.Create.Selector.{
  IsNodeName, join-nonempty, print_pair, IsPair, NewKeys, pair-nonempty, parse_selector-join,
}

trimmed_names_lem : (ns : List Bytes) → All IsNodeName ns → trimmed_names ns ≡ ns
unfolding trimmed_names
trimmed_names_lem [] h = refl
trimmed_names_lem (n ∷ ns) ((some_byte, printable, _), h) =
    rw (trim_space_printable n printable, some_byte, trimmed_names_lem ns h) refl

commas_out : (ns : List Bytes) → All IsNodeName ns → All (All (IsOther b',')) ns
commas_out [] h = tt
commas_out (n ∷ ns) ((_, _, out), h) = (out, commas_out ns h)

pub csv_names-join :
    (n : Bytes) (ns : List Bytes)
    → All IsNodeName (n ∷ ns)
    → csv_names (join (n ∷ ns) (codes ",")) ≡ n ∷ ns
unfolding csv_names
csv_names-join n ns h =
    rw
      (
        csv_names,
        join-nonempty n ns (codes ",") h.0.0,
        split-join n ns b',' (commas_out (n ∷ ns) h),
      )
      (trimmed_names_lem (n ∷ ns) h)

pub built_names :
    (body : Bytes) (f : CreateFlags)
    → f.all_nodes ≡ false
    → (build_spec body f).node_names ≡ csv_names f.nodes
unfolding build_spec
built_names body f some_nodes = ground arith

built_selector :
    (body : Bytes) (f : CreateFlags)
    → f.all_nodes ≡ false
    → csv_names f.nodes ≡ []
    → is_empty f.selector ≡ false
    → (build_spec body f).node_selector ≡ parse_selector f.selector
unfolding build_spec
built_selector body f some_nodes unnamed given = ground arith

pub built_all : (body : Bytes) (f : CreateFlags) → (build_spec body f).all_nodes ≡ f.all_nodes
unfolding build_spec
built_all body f = refl

module _ (K : Kube) where
  open K use {World}

  pub resolve_named :
      (spec : NodeMaintenanceSpec) (n : Bytes) (ns : List Bytes) (w : World)
      → spec.all_nodes ≡ false
      → spec.node_names ≡ n ∷ ns
      → resolve_nodes K spec w ≡ (ok (sort (n ∷ ns)), w)
  unfolding resolve_nodes
  resolve_named spec n ns w some_nodes named =
      rw (resolve_nodes, some_nodes, named) (ap (λ l. (ok (sort l), w)) named)

  resolve_selected :
      (spec : NodeMaintenanceSpec) (p : Bytes × Bytes) (ps : List (Bytes × Bytes)) (w : World)
      → spec.all_nodes ≡ false
      → spec.node_names ≡ []
      → spec.node_selector ≡ p ∷ ps
      → resolve_nodes K spec w ≡ list_all_nodes K (from_set (p ∷ ps)) w
  unfolding resolve_nodes
  resolve_selected spec p ps w some_nodes unnamed selected =
      rw (resolve_nodes, some_nodes, unnamed, selected)
        (ap (λ l. list_all_nodes K (from_set l) w) selected)

  -- `create --nodes a,b,c` reaches the orchestrator: of a resource that is built with the names joined by
  -- commas, each printable ASCII without spaces and commas, and without --all-nodes, `resolveNodes` gives
  -- exactly these names, sorted, whatever the selector says and without a call of the API server.
  pub resolve_nodes-build_spec :
      (body : Bytes) (f : CreateFlags) (n : Bytes) (ns : List Bytes) (w : World)
      → f.all_nodes ≡ false
      → f.nodes ≡ join (n ∷ ns) (codes ",")
      → All IsNodeName (n ∷ ns)
      → resolve_nodes K (build_spec body f) w ≡ (ok (sort (n ∷ ns)), w)
  resolve_nodes-build_spec body f n ns w some_nodes listed h =
      resolve_named (build_spec body f) n ns w (built_all body f ∙ some_nodes)
        (built_names body f some_nodes ∙ ap csv_names listed ∙ csv_names-join n ns h)

  -- `create --selector k=v,...` reaches the orchestrator: of a resource that is built with a printed
  -- selector with one label or more and distinct keys, without --all-nodes and --nodes, `resolveNodes`
  -- lists the nodes by exactly these labels.
  pub resolve_nodes-parse_selector :
      (body : Bytes) (f : CreateFlags) (p : Bytes × Bytes) (ps : List (Bytes × Bytes)) (w : World)
      → f.all_nodes ≡ false
      → f.nodes ≡ []
      → f.selector ≡ join (map print_pair (p ∷ ps)) (codes ",")
      → All IsPair (p ∷ ps)
      → NewKeys [] (p ∷ ps)
      → resolve_nodes K (build_spec body f) w ≡ list_all_nodes K (from_set (p ∷ ps)) w
  unfolding csv_names
  resolve_nodes-parse_selector body f (k, v) ps w some_nodes unnamed listed h new =
      let none_named : csv_names f.nodes ≡ [] = rw unnamed refl in
      let given : is_empty f.selector ≡ false =
        rw listed
          (join-nonempty (print_pair (k, v)) (map print_pair ps) (codes ",") (pair-nonempty k v)) in
      resolve_selected (build_spec body f) (k, v) ps w (built_all body f ∙ some_nodes)
        (built_names body f some_nodes ∙ none_named)
        (built_selector body f some_nodes none_named given
          ∙ ap parse_selector listed
          ∙ parse_selector-join ((k, v) ∷ ps) h new)
