-- ===== src/Orchestrator/Fresh.antt =====
-- internal/orchestrator/orchestrator.go: `Init` of a resource without nodes.
use kluster_one.Prelude.{ℕ, ◌≡◌, refl, ◌∙◌, ap, true, List, [], ◌∷◌, map, ok, Bytes}
use kluster_one.Api.{NodeMaintenance, completed, pending_node}
use kluster_one.Kube.{Kube}
use kluster_one.Orchestrator.Nodes.{tally}
use kluster_one.Orchestrator.Progress.{init_status_empty, rollup_keeps}
use kluster_one.Orchestrator.Resolve.{init_ok, seed_nodes}
use kluster_one.Orchestrator.{resolve_nodes, init, init_status, init_fresh, seed, rollup}

-- The user's part of the second resource is that of the first one.
pub record SameAsk (nm nm' : NodeMaintenance) : Type 0 where
  pub spec : nm'.spec ≡ nm.spec
  pub meta : nm'.meta ≡ nm.meta

module _ (K : Kube) where
  open K use {World, now}

  seed_keeps : (nm : NodeMaintenance) (names : List Bytes) (t : ℕ) → SameAsk nm (seed K nm names t)
  unfolding seed
  seed_keeps nm [] t = record { spec = refl; meta = refl }
  seed_keeps nm (n ∷ names) t = record { spec = refl; meta = refl }

  seed_phase : (nm : NodeMaintenance) (t : ℕ) → (seed K nm [] t).status.phase ≡ completed
  unfolding seed
  seed_phase nm t = refl

  -- What `Init` makes of the names: a status for each, and Completed at once if there is none.
  pub record Seeded (nm nm' : NodeMaintenance) (names : List Bytes) (t : ℕ) : Type 0 where
    pub ask : SameAsk nm nm'
    pub nodes : nm'.status.nodes ≡ map (λ n. pending_node n t) names
    pub ended : names ≡ [] → nm'.status.phase ≡ completed

  init_fresh-Seeded :
      (nm : NodeMaintenance) (w : World) (names : List Bytes)
      → nm.status.nodes ≡ []
      → (resolve_nodes K nm.spec w).0 ≡ ok names
      → let (nm₁, r, w₁) = init_fresh K nm w in (r ≡ ok true) × Seeded nm nm₁ names (now w₁)
  unfolding init_fresh
  init_fresh-Seeded nm w names h found =
      rw (init_fresh, found)
        (
          refl,
          record {
            ask = record { spec = (seed_keeps _ names _).spec; meta = (seed_keeps _ names _).meta };
            nodes = seed_nodes K _ names _ h;
            ended = λ none_named. rw none_named (seed_phase _ _);
          },
        )

  rollup_nothing :
      (nm : NodeMaintenance) (w : World)
      → nm.status.nodes ≡ []
      → (rollup K nm w).0.status.phase ≡ nm.status.phase
  unfolding rollup tally
  rollup_nothing nm w h = rw (rollup, h) refl

  -- `Init` of a resource without nodes whose targets resolve.
  pub init-Seeded :
      (nm : NodeMaintenance) (w : World) (names : List Bytes)
      → nm.status.nodes ≡ []
      → (resolve_nodes K nm.spec w).0 ≡ ok names
      → let (nm', r, w') = init K nm w in (r ≡ ok true) × Seeded nm nm' names (now w')
  init-Seeded nm w names h found =
      let (nm₁, r₁, w₁) = init_status K nm w in
      let started : (r₁ ≡ ok true) × Seeded nm nm₁ names (now w₁) =
        rw (init_status_empty K nm w h) (init_fresh-Seeded nm w names h found) in
      let (fine, s) = started in
      let (nodes, spec, meta) = rollup_keeps K nm₁ w₁ in
      rw (init_ok K nm w fine) (
        refl,
        record {
          ask = record { spec = spec ∙ s.ask.spec; meta = meta ∙ s.ask.meta };
          nodes = nodes ∙ s.nodes;
          ended = λ none_named.
              rollup_nothing nm₁ w₁ (s.nodes ∙ ap (map (λ n. pending_node n (now w₁))) none_named)
              ∙ s.ended none_named;
        },
      )
