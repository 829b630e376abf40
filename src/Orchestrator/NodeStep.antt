-- ===== src/Orchestrator/NodeStep.antt =====
-- internal/orchestrator/orchestrator.go: one pass of `runActions`, node by node, and the invariant of a
-- node's progress through the plan.
use kluster_one.Prelude.{
  suc, ◌≤◌, ◌≡◌, refl, sym, ap, ◌∙◌, inl, inr, true, false, List, [], ◌∷◌, ◌++◌, map, none, some,
  arith, length, take, get_elem?, get_elem?-map, take-suc, length-take, length-map, length-append,
  Option-cases, Bool-cases, Bytes, All, Aligned, take-length, le_of_get_elem?-none,
}
use kluster_one.Api.{
  NodeMaintenance, NodeStatus, ActionSpec, completed, action_name, is_in_progress,
}
use kluster_one.Api.Schema.{is_listed}
use kluster_one.Kube.{Kube}
use kluster_one.Actions.{Registry}
use kluster_one.Actions.Contract.{AllKeepProgress}
use kluster_one.Orchestrator.Nodes.{effective_actions, advance_node, run_actions_loop}
use kluster_one.Orchestrator.Advance.{
  Advances, advance_node-Advances, advance_node_done, run_actions_loop_step,
}

-- What a pass does to one node.
pub data NodeStep (plan : List ActionSpec) (ns ns' : NodeStatus) : Type 0 where
  idle : is_in_progress ns.phase ≡ false → ns' ≡ ns → NodeStep plan ns ns'
  runs :
      (spec : ActionSpec)
      → is_in_progress ns.phase ≡ true
      → get_elem? plan (length ns.completed_actions) ≡ some spec
      → Advances (length plan) spec ns ns'
      → NodeStep plan ns ns'
  ends :
      is_in_progress ns.phase ≡ true
      → get_elem? plan (length ns.completed_actions) ≡ none
      → ns'.name ≡ ns.name
      → ns'.phase ≡ completed
      → ns'.completed_actions ≡ ns.completed_actions
      → NodeStep plan ns ns'

module _ (K : Kube) (reg : Registry K) (nm : NodeMaintenance) (keep : AllKeepProgress K reg) where
  open K use {World}

  abbrev plan : List ActionSpec
  plan = effective_actions nm.spec

  advance_node-NodeStep :
      (ns : NodeStatus) (w : World)
      → is_in_progress ns.phase ≡ true
      → NodeStep plan ns (advance_node K reg nm ns w).0
  advance_node-NodeStep ns w flying =
      elim (Option-cases (get_elem? plan (length ns.completed_actions))) [
        | inl last ↦ let (n, p, c) = advance_node_done K reg nm ns w last in ends flying last n p c
        | inr (spec, next) ↦
            runs spec flying next (advance_node-Advances K reg nm ns w spec keep next)
      ]

  pub run_actions_loop-NodeStep :
      (ns : List NodeStatus) (w : World)
      → Aligned (NodeStep plan) ns (run_actions_loop K reg nm ns w).0
  run_actions_loop-NodeStep [] w = unfold run_actions_loop in tt
  run_actions_loop-NodeStep (n ∷ ns) w =
      rw (run_actions_loop_step K reg nm n ns w) (elim (Bool-cases (is_in_progress n.phase)) [
        | inl flying ↦ rw flying (
          advance_node-NodeStep n w flying,
          run_actions_loop-NodeStep ns (advance_node K reg nm n w).2,
        )
        | inr still ↦ rw still (idle still refl, run_actions_loop-NodeStep ns w)
      ])

-- Each entry of an `Aligned` list has what its relation gives from the entry before.
pub All-of_Aligned {ℓ κ} :
    {A : Type ℓ} {B : Type κ} {R : A → B → Type 0} {P : A → Type 0} {Q : B → Type 0} (xs : List A)
    (ys : List B)
    → ((x : A) (y : B) → R x y → P x → Q y)
    → Aligned R xs ys
    → All P xs
    → All Q ys
All-of_Aligned [] [] f r h = tt
All-of_Aligned [] (y ∷ ys) f r h = absurd r
All-of_Aligned (x ∷ xs) [] f r h = tt
All-of_Aligned (x ∷ xs) (y ∷ ys) f r h = (f x y r.0 h.0, All-of_Aligned xs ys f r.1 h.1)

abbrev pub action_names : List ActionSpec → List Bytes
action_names = map (λ a. action_name a.type)

-- The node's completed actions are the first ones of the plan, in order; if it is Completed they are
-- all of the plan.
pub record Tracks (plan : List ActionSpec) (ns : NodeStatus) : Type 0 where
  pub listed : is_listed ns.phase ≡ true
  pub in_order : ns.completed_actions ≡ take (length ns.completed_actions) (action_names plan)
  pub finished : ns.phase ≡ completed → ns.completed_actions ≡ action_names plan

pub completed-le :
    (plan : List ActionSpec) (ns : NodeStatus)
    → Tracks plan ns
    → length ns.completed_actions ≤ length plan
completed-le plan ns h = omega (
  arith,
  ap length h.in_order,
  length-take (length ns.completed_actions) (action_names plan),
  length-map (λ a. action_name a.type) plan,
)

take_all :
    (plan : List ActionSpec) (done : List Bytes)
    → done ≡ take (length done) (action_names plan)
    → length done ≡ length plan
    → done ≡ action_names plan
take_all plan done h full =
    h
    ∙ ap (λ k. take k (action_names plan)) (full ∙ sym (length-map (λ a. action_name a.type) plan))
    ∙ take-length (action_names plan)

snoc_in_order :
    (plan : List ActionSpec) (done : List Bytes) (spec : ActionSpec)
    → done ≡ take (length done) (action_names plan)
    → get_elem? plan (length done) ≡ some spec
    → let done' = done ++ action_name spec.type ∷ [] in
      done' ≡ take (length done') (action_names plan)
snoc_in_order plan done spec h next =
    let more =
      take-suc (length done) (action_names plan)
        (get_elem?-map (λ a. action_name a.type) plan (length done) next) in
    let grown : length (done ++ action_name spec.type ∷ []) ≡ suc (length done) =
      omega (arith, length-append done (action_name spec.type ∷ [])) in
    ap (λ l. l ++ action_name spec.type ∷ []) h
    ∙ sym more
    ∙ ap (λ k. take k (action_names plan)) (sym grown)

pub NodeStep-Tracks :
    (plan : List ActionSpec) (ns ns' : NodeStatus)
    → NodeStep plan ns ns'
    → Tracks plan ns
    → Tracks plan ns'
NodeStep-Tracks plan ns ns' (idle still same) h = rw same h
NodeStep-Tracks plan ns ns' (ends flying last n p c) h = record {
  listed = rw p refl;
  in_order = rw c h.in_order;
  finished = λ _.
      c
      ∙ take_all plan ns.completed_actions h.in_order
          (omega (arith, completed-le plan ns h, le_of_get_elem?-none plan _ last));
}
NodeStep-Tracks plan ns ns' (runs spec flying next (n, inl (p, c))) h = record {
  listed = rw p refl;
  in_order = rw c h.in_order;
  finished = λ q. cc;
}
NodeStep-Tracks plan ns ns' (runs spec flying next (n, inr (c, p))) h = record {
  listed = ground (arith, h.listed);
  in_order = rw c (snoc_in_order plan ns.completed_actions spec h.in_order next);
  finished = λ q.
      c
      ∙ take_all plan (ns.completed_actions ++ action_name spec.type ∷ [])
          (snoc_in_order plan ns.completed_actions spec h.in_order next) (ground arith);
}
