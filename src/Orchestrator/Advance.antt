-- ===== src/Orchestrator/Advance.antt =====
-- internal/orchestrator/orchestrator.go: what `advanceNode` and the loop of `runActions` do to a node.
use kluster_one.Prelude.{
  ℕ, ◌≡◌, refl, ◌⊎◌, inl, inr, List, [], ◌∷◌, ◌++◌, none, some, arith, ◌==◌, if◌then◌else◌, length,
  get_elem?, Result-cases, Option, Error,
}
use kluster_one.Api.{
  NodeMaintenance, NodeStatus, ActionSpec, completed, failed, action_name, is_in_progress,
}
use kluster_one.Kube.{Kube}
use kluster_one.Actions.{Registry, get_action}
use kluster_one.Actions.Contract.{AllKeepProgress, get_action-KeepsProgress}
use kluster_one.Orchestrator.Nodes.{
  effective_actions, run_action, advance_node, run_actions_loop, execute, record_outcome,
}

-- The node failed and completed no more actions.
abbrev pub Fails : NodeStatus → NodeStatus → Type 0
Fails ns ns' = (ns'.phase ≡ failed) × (ns'.completed_actions ≡ ns.completed_actions)

-- The node completed the action, and is Completed exactly when that was the last one planned.
abbrev pub Completes : ℕ → ActionSpec → NodeStatus → NodeStatus → Type 0
Completes planned spec ns ns' =
    (ns'.completed_actions ≡ ns.completed_actions ++ action_name spec.type ∷ [])
    × (ns'.phase ≡ (
        if length (ns.completed_actions ++ action_name spec.type ∷ []) == planned
        then completed
        else ns.phase))

abbrev pub Advances : ℕ → ActionSpec → NodeStatus → NodeStatus → Type 0
Advances planned spec ns ns' = (ns'.name ≡ ns.name) × (Fails ns ns' ⊎ Completes planned spec ns ns')

record_outcome-Advances :
    (planned : ℕ) (spec : ActionSpec) (ns ns' : NodeStatus) (e : Option Error) (t : ℕ)
    → ns'.name ≡ ns.name
    → ns'.phase ≡ ns.phase
    → ns'.completed_actions ≡ ns.completed_actions
    → Advances planned spec ns (record_outcome planned spec ns' e t).0
unfolding record_outcome
record_outcome-Advances planned spec ns ns' (some cause) t n p c = (n, inl (refl, c))
record_outcome-Advances planned spec ns ns' none t n p c =
    rw (← n, ← p, ← c) (ground arith, inr (ground arith, ground arith))

module _ (K : Kube) where
  open K use {World, get_node}

  run_action-Advances :
      (reg : Registry K) (nm : NodeMaintenance) (planned : ℕ) (spec : ActionSpec) (ns : NodeStatus)
      (w : World)
      → AllKeepProgress K reg
      → Advances planned spec ns (run_action K reg nm planned spec ns w).0
  unfolding run_action execute
  run_action-Advances reg nm planned spec ns w keep =
      elim (Result-cases (get_action K spec.type reg)) [
        | inr (e, no_action) ↦ rw (no_action, run_action) (refl, inl (refl, refl))
        | inl (a, found) ↦ elim (Result-cases (get_node ns.name w).0) [
          | inr (e, no_node) ↦ rw (found, no_node, run_action) (refl, inl (refl, refl))
          | inl (node, e) ↦
              let k = get_action-KeepsProgress K spec.type reg a keep found in
              let started = record ns { current_action = action_name spec.type } in
              let w₁ = (get_node ns.name w).1 in
              rw (found, e, run_action)
                (record_outcome-Advances planned spec ns (a nm node started spec w₁).0 _ _
                  (k.keeps_name nm node started spec w₁) (k.keeps_phase nm node started spec w₁)
                  (k.keeps_completed nm node started spec w₁))
        ]
      ]

  -- On a plan with an action left, a node in flight runs the next one.
  pub advance_node-Advances :
      (reg : Registry K) (nm : NodeMaintenance) (ns : NodeStatus) (w : World) (spec : ActionSpec)
      → AllKeepProgress K reg
      → get_elem? (effective_actions nm.spec) (length ns.completed_actions) ≡ some spec
      → Advances (length (effective_actions nm.spec)) spec ns (advance_node K reg nm ns w).0
  unfolding advance_node
  advance_node-Advances reg nm ns w spec keep next =
      rw (next, advance_node) (run_action-Advances reg nm _ spec ns w keep)

  -- With no action left it is Completed.
  pub advance_node_done :
      (reg : Registry K) (nm : NodeMaintenance) (ns : NodeStatus) (w : World)
      → get_elem? (effective_actions nm.spec) (length ns.completed_actions) ≡ none
      → let ns' = (advance_node K reg nm ns w).0 in
        (ns'.name ≡ ns.name)
        × (ns'.phase ≡ completed)
        × (ns'.completed_actions ≡ ns.completed_actions)
  unfolding advance_node
  advance_node_done reg nm ns w last = rw (last, advance_node) (refl, refl, refl)

  -- One round of the loop.
  abbrev visit :
      Registry K → NodeMaintenance → NodeStatus → World → NodeStatus × Option Error × World
  visit reg nm ns w = if is_in_progress ns.phase then advance_node K reg nm ns w else (ns, none, w)

  pub run_actions_loop_step :
      (reg : Registry K) (nm : NodeMaintenance) (ns : NodeStatus) (rest : List NodeStatus)
      (w : World)
      → (run_actions_loop K reg nm (ns ∷ rest) w).0
        ≡ (visit reg nm ns w).0 ∷ (run_actions_loop K reg nm rest (visit reg nm ns w).2).0
  unfolding run_actions_loop
  run_actions_loop_step reg nm ns rest w = refl
