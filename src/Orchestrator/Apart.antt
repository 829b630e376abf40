-- ===== src/Orchestrator/Apart.antt =====
-- internal/orchestrator/orchestrator.go: what Init and Step do to the cluster writes none of the
-- NodeMaintenance resources, if the actions write none.
use kluster_one.Prelude.{
  ◌≡◌, ◌∙◌, refl, inl, inr, List, [], ◌∷◌, arith, Result-cases, Option-cases, ℕ, length, get_elem?,
  Bool-cases,
}
use kluster_one.Api.{NodeMaintenance, NodeMaintenanceSpec, NodeStatus, ActionSpec, is_in_progress}
use kluster_one.Kube.{Kube, Selector, everything, from_set}
use kluster_one.Actions.{Registry, get_action}
use kluster_one.Actions.Apart.{Apart, AllKeepView, get_action-KeepsView}
use kluster_one.Orchestrator.Nodes.{
  execute, run_action, advance_node, run_actions_loop, effective_actions,
}
use kluster_one.Orchestrator.{
  admit, run_actions, run_pass, step, init, init_status, init_fresh, resolve_nodes, list_all_nodes,
}

module _ (K : Kube) (A : Type 0) (view : K.World → A) (apart : Apart K A view) where
  open K use {World, get_node}

  list_all_nodes_keeps : (sel : Selector) (w : World) → view (list_all_nodes K sel w).1 ≡ view w
  unfolding list_all_nodes
  list_all_nodes_keeps sel w = ground (arith, apart.list_nodes sel w)

  resolve_nodes_keeps :
      (spec : NodeMaintenanceSpec) (w : World) → view (resolve_nodes K spec w).1 ≡ view w
  unfolding resolve_nodes
  resolve_nodes_keeps spec w = ground (
    arith,
    list_all_nodes_keeps everything w,
    list_all_nodes_keeps (from_set spec.node_selector) w,
  )

  init_status_keeps : (nm : NodeMaintenance) (w : World) → view (init_status K nm w).2 ≡ view w
  unfolding init_status init_fresh
  init_status_keeps nm w = ground (arith, resolve_nodes_keeps nm.spec w)

  pub init_keeps : (nm : NodeMaintenance) (w : World) → view (init K nm w).2 ≡ view w
  unfolding init
  init_keeps nm w = ground (arith, init_status_keeps nm w)

  module _ (reg : Registry K) (keep : AllKeepView K A view reg) where
    run_action_keeps :
        (nm : NodeMaintenance) (planned : ℕ) (spec : ActionSpec) (ns : NodeStatus) (w : World)
        → view (run_action K reg nm planned spec ns w).2 ≡ view w
    unfolding run_action execute
    run_action_keeps nm planned spec ns w =
        let w₁ = (get_node ns.name w).1 in
        let read = apart.get_node ns.name w in
        elim (Result-cases (get_action K spec.type reg)) [
          | inr (e, failed) ↦ ground (arith, failed)
          | inl (action, got) ↦ elim (Result-cases (get_node ns.name w).0) [
            | inr (e, failed) ↦ ground (arith, got, failed, read)
            | inl (node, got') ↦
                rw (run_action, got, got')
                  (get_action-KeepsView K A view spec.type reg action keep got nm node _ spec w₁
                    ∙ read)
          ]
        ]

    advance_node_keeps :
        (nm : NodeMaintenance) (ns : NodeStatus) (w : World)
        → view (advance_node K reg nm ns w).2 ≡ view w
    unfolding advance_node
    advance_node_keeps nm ns w =
        let plan = effective_actions nm.spec in
        elim (Option-cases (get_elem? plan (length ns.completed_actions))) [
          | inl over ↦ rw (advance_node, over) refl
          | inr (spec, next) ↦ rw (advance_node, next) (run_action_keeps nm (length plan) spec ns w)
        ]

    run_actions_loop_keeps :
        (nm : NodeMaintenance) (nodes : List NodeStatus) (w : World)
        → view (run_actions_loop K reg nm nodes w).2 ≡ view w
    unfolding run_actions_loop
    run_actions_loop_keeps nm [] w = refl
    run_actions_loop_keeps nm (ns ∷ rest) w = elim (Bool-cases (is_in_progress ns.phase)) [
      | inl busy ↦
          rw (run_actions_loop, busy)
            (run_actions_loop_keeps nm rest (advance_node K reg nm ns w).2
              ∙ advance_node_keeps nm ns w)
      | inr idle ↦ rw (run_actions_loop, idle) (run_actions_loop_keeps nm rest w)
    ]

    run_pass_keeps : (nm : NodeMaintenance) (w : World) → view (run_pass K reg nm w).2 ≡ view w
    unfolding run_pass run_actions
    run_pass_keeps nm w = run_actions_loop_keeps (admit K nm w) (admit K nm w).status.nodes w

    pub step_keeps_view : (nm : NodeMaintenance) (w : World) → view (step K reg nm w).2 ≡ view w
    unfolding step
    step_keeps_view nm w =
        let (nm₁, r, w₁) = init_status K nm w in
        let read = init_status_keeps nm w in
        elim (Result-cases r) [
          | inr (e, failing) ↦ ground (arith, failing, read)
          | inl (b, fine) ↦ rw (step, fine) (run_pass_keeps nm₁ w₁ ∙ read)
        ]
