-- ===== src/Orchestrator/Resolve.antt =====
-- internal/orchestrator/orchestrator.go: which nodes a run gets, and in which order.
use kluster_one.Prelude.{
  ℕ, ◌≡◌, ◌≢◌, refl, ap, ◌∙◌, sym, Bool, inl, inr, true, false, List, [], ◌∷◌, map, ok, Bytes,
  arith, Bool-cases, Result-cases, List-cases,
}
use kluster_one.Prelude.Strings.{sort}
use kluster_one.Prelude.Sorting.{IsSorted, occurrences, sort-IsSorted, occurrences-sort}
use kluster_one.Api.{NodeMaintenance, NodeMaintenanceSpec, pending_node}
use kluster_one.Kube.{Kube, Selector, everything, from_set}
use kluster_one.Orchestrator.Progress.{init_status_empty, rollup_keeps}
use kluster_one.Orchestrator.{
  list_all_nodes, resolve_nodes, seed, init_fresh, init_status, init, rollup,
}

module _ (K : Kube) where
  open K use {World, list_nodes, now}

  -- The targets decide.
  pub resolve_same :
      (a b : NodeMaintenanceSpec) (w : World)
      → a.all_nodes ≡ b.all_nodes
      → a.node_names ≡ b.node_names
      → a.node_selector ≡ b.node_selector
      → resolve_nodes K a w ≡ resolve_nodes K b w
  unfolding resolve_nodes
  resolve_same a b w all names selector =
      let with_all : Bool → NodeMaintenanceSpec = λ x. record b {
        all_nodes = x;
        node_names = a.node_names;
        node_selector = a.node_selector;
      } in
      let with_names : List Bytes → NodeMaintenanceSpec =
        λ x. record b { node_names = x; node_selector = a.node_selector } in
      let with_selector : List (Bytes × Bytes) → NodeMaintenanceSpec =
        λ x. record b { node_selector = x } in
      let alike : resolve_nodes K a w ≡ resolve_nodes K (with_all a.all_nodes) w = refl in
      alike
      ∙ ap (λ x. resolve_nodes K (with_all x) w) all
      ∙ ap (λ x. resolve_nodes K (with_names x) w) names
      ∙ ap (λ x. resolve_nodes K (with_selector x) w) selector

  list_all_nodes-IsSorted :
      (sel : Selector) (w : World) (names : List Bytes)
      → (list_all_nodes K sel w).0 ≡ ok names
      → IsSorted names
  unfolding list_all_nodes
  list_all_nodes-IsSorted sel w names h = elim (Result-cases (list_nodes sel w).0) [
    | inr (e, failed) ↦ absurd (ground arith)
    | inl (items, listed) ↦
        let same : sort (map (λ n. n.name) items) ≡ names = ground arith in
        rw (sym same) (sort-IsSorted (map (λ n. n.name) items))
  ]

  resolve_nodes-IsSorted :
      (spec : NodeMaintenanceSpec) (w : World) (names : List Bytes)
      → (resolve_nodes K spec w).0 ≡ ok names
      → IsSorted names
  unfolding resolve_nodes
  resolve_nodes-IsSorted spec w names h = elim (Bool-cases spec.all_nodes) [
    | inl all ↦ list_all_nodes-IsSorted everything w names (ground (arith, all))
    | inr some_only ↦ elim (List-cases spec.node_names) [
      | inr (n, ns, named) ↦
          let same : sort spec.node_names ≡ names = ground (arith, named) in
          rw (sym same) (sort-IsSorted spec.node_names)
      | inl unnamed ↦ elim (List-cases spec.node_selector) [
        | inr (e, es, selected) ↦
            list_all_nodes-IsSorted (from_set spec.node_selector) w names (ground (arith, selected))
        | inl unselected ↦ let same : [] ≡ names = ground arith in rw (sym same) tt
      ]
    ]
  ]

  -- The nodes that `seed` gives a resource without nodes.
  pub seed_nodes :
      (nm : NodeMaintenance) (names : List Bytes) (t : ℕ)
      → nm.status.nodes ≡ []
      → (seed K nm names t).status.nodes ≡ map (λ n. pending_node n t) names
  unfolding seed
  seed_nodes nm [] t h = h
  seed_nodes nm (n ∷ names) t h = rw h refl

  init_fresh_ok :
      (nm : NodeMaintenance) (w : World) (names : List Bytes)
      → nm.status.nodes ≡ []
      → (resolve_nodes K nm.spec w).0 ≡ ok names
      → let (nm', r, w') = init_fresh K nm w in
        (r ≡ ok true) × (nm'.status.nodes ≡ map (λ n. pending_node n (now w')) names)
  unfolding init_fresh
  init_fresh_ok nm w names h found =
      rw (init_fresh, found) (refl, seed_nodes _ names (now (resolve_nodes K nm.spec w).1) h)

  init_status_ok :
      (nm : NodeMaintenance) (w : World) (names : List Bytes)
      → nm.status.nodes ≡ []
      → (resolve_nodes K nm.spec w).0 ≡ ok names
      → let (nm', r, w') = init_status K nm w in
        (r ≡ ok true) × (nm'.status.nodes ≡ map (λ n. pending_node n (now w')) names)
  init_status_ok nm w names h found =
      rw (init_status_empty K nm w h) (init_fresh_ok nm w names h found)

  -- `Init` behind an `initStatus` that seeded.
  pub init_ok :
      (nm : NodeMaintenance) (w : World)
      → (init_status K nm w).1 ≡ ok true
      → let (nm₁, _, w₁) = init_status K nm w in init K nm w ≡ ((rollup K nm₁ w₁).0, ok true, w₁)
  unfolding init
  init_ok nm w h = rw (init, h) refl

  init_nodes :
      (nm : NodeMaintenance) (w : World) (names : List Bytes)
      → let (nm₁, r, w₁) = init_status K nm w in
        r ≡ ok true
        → nm₁.status.nodes ≡ map (λ n. pending_node n (now w₁)) names
        → let (nm', r', w') = init K nm w in
          (r' ≡ ok true) × (nm'.status.nodes ≡ map (λ n. pending_node n (now w')) names)
  init_nodes nm w names fine nodes =
      let (nm₁, _, w₁) = init_status K nm w in
      let (kept, _, _) = rollup_keeps K nm₁ w₁ in rw (init_ok nm w fine) (refl, kept ∙ nodes)

  -- `Init` of a resource without nodes whose targets resolve seeds one Pending status for each of them,
  -- in the order of their names and with the current time.
  pub init_seeds_resolved :
      (nm : NodeMaintenance) (w : World) (names : List Bytes)
      → nm.status.nodes ≡ []
      → (resolve_nodes K nm.spec w).0 ≡ ok names
      → let (nm', r, w') = init K nm w in
        (r ≡ ok true)
        × (nm'.status.nodes ≡ map (λ n. pending_node n (now w')) names)
        × IsSorted names
  init_seeds_resolved nm w names h found =
      let (fine, nodes) = init_status_ok nm w names h found in
      let (seeded, there) = init_nodes nm w names fine nodes in
      (seeded, there, resolve_nodes-IsSorted nm.spec w names found)

  -- A list of names is resolved without a call of the API server, to the same names as often as they
  -- stand there, in order.
  resolve_nodes_named :
      (spec : NodeMaintenanceSpec) (w : World)
      → spec.all_nodes ≡ false
      → spec.node_names ≢ []
      → (names : List Bytes) × (resolve_nodes K spec w ≡ (ok names, w))
        × IsSorted names
        × ((s : Bytes) → occurrences s names ≡ occurrences s spec.node_names)
  unfolding resolve_nodes
  resolve_nodes_named spec w all named = (
    sort spec.node_names,
    ground (arith, List-cases spec.node_names),
    sort-IsSorted spec.node_names,
    λ s. occurrences-sort s spec.node_names,
  )
