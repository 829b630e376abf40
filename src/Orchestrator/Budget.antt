-- ===== src/Orchestrator/Budget.antt =====
-- internal/orchestrator/orchestrator.go: `admit` and the `maxUnavailable` budget.
use kluster_one.Prelude.{
  ℕ, suc, ◌+◌, ◌-◌, ◌≤◌, ◌<◌, min, max, ◌≡◌, refl, inl, inr, List, [], ◌∷◌, ◌++◌, map, some, arith,
  leb, if◌then◌else◌, length, take, drop, count_if, Bool-cases,
}
use kluster_one.Api.{NodeMaintenance, NodeStatus, in_progress, is_pending}
use kluster_one.Kube.{Kube}
use kluster_one.Orchestrator.Nodes.{effective_budget, in_flight, promote}
use kluster_one.Orchestrator.{admit}

abbrev pub waiting : List NodeStatus → ℕ
waiting = count_if (λ ns. is_pending ns.phase)

-- A node that is let in.
abbrev pub start : ℕ → NodeStatus → NodeStatus
start t ns =
    if is_pending ns.phase
    then record ns { phase = in_progress; last_transition_time = some t }
    else ns

in_flight-promote :
    (b t k : ℕ) (ns : List NodeStatus)
    → in_flight (promote b t k ns) ≡ in_flight ns + min (b - k) (waiting ns)
unfolding promote
in_flight-promote b t k [] = omega arith
in_flight-promote b t k (n ∷ ns) =
    ground (arith, in_flight-promote b t k ns, in_flight-promote b t (k + 1) ns)

promote_prefix :
    (b t k : ℕ) (ns : List NodeStatus)
    → (m : ℕ) × (promote b t k ns ≡ map (start t) (take m ns) ++ drop m ns)
unfolding promote
promote_prefix b t k [] = (0, refl)
promote_prefix b t k (n ∷ ns) =
    let (m, e) = promote_prefix b t (if is_pending n.phase then k + 1 else k) ns in
    elim (Bool-cases (leb b k)) [ inl full ↦ (0, rw full) | inr room ↦ (suc m, ground arith) ]

-- A run with nodes always has room for one.
pub effective_budget_pos :
    (nm : NodeMaintenance) → 0 < length nm.status.nodes → 0 < effective_budget nm
unfolding effective_budget
effective_budget_pos nm h = ground arith

module _ (K : Kube) where
  open K use {World}

  -- `admit` lets in as many waiting nodes as there are, up to what the budget leaves beside the nodes
  -- in flight; so the nodes in flight exceed the budget only if they did before.
  pub in_flight-admit :
      (nm : NodeMaintenance) (w : World)
      → let before = in_flight nm.status.nodes in
        let after = in_flight (admit K nm w).status.nodes in
        let budget = effective_budget nm in
        (after ≡ before + min (budget - before) (waiting nm.status.nodes))
        × (after ≤ max before budget)
  unfolding admit
  in_flight-admit nm w =
      let budget = effective_budget nm in
      let e = in_flight-promote budget (K.now w) (in_flight nm.status.nodes) nm.status.nodes in
      (e, omega (arith, e))

  -- `admit` lets nodes in from the front of the list: of a first part it starts the waiting nodes, at the
  -- current time, and it leaves the rest of the list, the other nodes, the spec and the other fields of
  -- the status as they are.
  pub admit_in_order :
      (nm : NodeMaintenance) (w : World)
      → let ns = nm.status.nodes in
        (m : ℕ) × (admit K nm w ≡ record nm {
          status = record nm.status { nodes = map (start (K.now w)) (take m ns) ++ drop m ns };
        })
  unfolding admit
  admit_in_order nm w =
      let (m, e) =
        promote_prefix (effective_budget nm) (K.now w) (in_flight nm.status.nodes)
          nm.status.nodes in
      (m, rw e)
