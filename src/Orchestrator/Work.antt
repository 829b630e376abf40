-- ===== src/Orchestrator/Work.antt =====
-- internal/orchestrator/orchestrator.go: the work that the nodes of a run have left.
use kluster_one.Prelude.{
  ℕ, ◌+◌, ◌-◌, ◌*◌, ◌≤◌, ◌≡◌, refl, inl, inr, true, List, [], ◌∷◌, arith, if◌then◌else◌, length,
  All, Aligned, length-append, lt_of_get_elem?,
}
use kluster_one.Api.{NodeStatus, ActionSpec, is_pending, is_in_progress, action_name}
use kluster_one.Orchestrator.Nodes.{promote, in_flight}
use kluster_one.Orchestrator.NodeStep.{NodeStep, idle, runs, ends, Tracks, completed-le}
use kluster_one.Orchestrator.Budget.{waiting}
use kluster_one.Orchestrator.Summary.{all_terminal}

-- The Steps that a node may still take: one to be let in, one for each action left, and one.
abbrev pub work : ℕ → NodeStatus → ℕ
work planned ns =
    if is_pending ns.phase
    then planned + 2
    else if is_in_progress ns.phase
    then planned + 1 - length ns.completed_actions
    else 0

abbrev pub total_work : ℕ → List NodeStatus → ℕ
total_work planned [] = 0
total_work planned (ns ∷ rest) = work planned ns + total_work planned rest

-- A node in flight uses up some work in a pass.
work-NodeStep :
    (plan : List ActionSpec) (ns ns' : NodeStatus)
    → NodeStep plan ns ns'
    → Tracks plan ns
    → work (length plan) ns' + (if is_in_progress ns.phase then 1 else 0) ≤ work (length plan) ns
work-NodeStep plan ns ns' (idle still same) h = rw (same, still) (ground arith)
work-NodeStep plan ns ns' (ends flying last n p c) h =
    rw (p, flying) (ground (arith, completed-le plan ns h))
work-NodeStep plan ns ns' (runs spec flying next (n, inl (p, c))) h =
    rw (p, flying) (ground (arith, completed-le plan ns h))
work-NodeStep plan ns ns' (runs spec flying next (n, inr (c, p))) h =
    rw (p, c)
      (ground (
        arith,
        length-append ns.completed_actions (action_name spec.type ∷ []),
        lt_of_get_elem? plan (length ns.completed_actions) next,
      ))

pub total_work-Aligned :
    (plan : List ActionSpec) (ns ns' : List NodeStatus)
    → Aligned (NodeStep plan) ns ns'
    → All (Tracks plan) ns
    → total_work (length plan) ns' + in_flight ns ≤ total_work (length plan) ns
total_work-Aligned plan [] [] r h = omega arith
total_work-Aligned plan [] (y ∷ ys) r h = absurd r
total_work-Aligned plan (x ∷ xs) [] r h = absurd r
total_work-Aligned plan (x ∷ xs) (y ∷ ys) r h =
    ground (arith, work-NodeStep plan x y r.0 h.0, total_work-Aligned plan xs ys r.1 h.1)

-- Letting a node in makes no work.
pub total_work-promote :
    (planned b t k : ℕ) (ns : List NodeStatus)
    → total_work planned (promote b t k ns) ≤ total_work planned ns
unfolding promote
total_work-promote planned b t k [] = omega arith
total_work-promote planned b t k (n ∷ ns) =
    ground (arith, total_work-promote planned b t k ns, total_work-promote planned b t (k + 1) ns)

pub total_work-le :
    (planned : ℕ) (ns : List NodeStatus) → total_work planned ns ≤ length ns * (planned + 2)
total_work-le planned [] = omega arith
total_work-le planned (n ∷ ns) = ground (arith, total_work-le planned ns)

-- A listed phase is waiting, in flight or terminal.
pub all_terminal_of_none :
    (plan : List ActionSpec) (ns : List NodeStatus)
    → All (Tracks plan) ns
    → waiting ns + in_flight ns ≡ 0
    → all_terminal ns ≡ true
all_terminal_of_none plan [] h e = refl
all_terminal_of_none plan (n ∷ ns) h e =
    ground (arith, h.0.listed, all_terminal_of_none plan ns h.1)

pub none_of_all_terminal :
    (planned : ℕ) (ns : List NodeStatus)
    → all_terminal ns ≡ true
    → (waiting ns + in_flight ns ≡ 0) × (total_work planned ns ≡ 0)
none_of_all_terminal planned [] h = (refl, refl)
none_of_all_terminal planned (n ∷ ns) h = ground (arith, none_of_all_terminal planned ns)

-- Without work every node is done.
pub all_terminal_of_work :
    (plan : List ActionSpec) (ns : List NodeStatus)
    → All (Tracks plan) ns
    → total_work (length plan) ns ≡ 0
    → all_terminal ns ≡ true
all_terminal_of_work plan [] h e = refl
all_terminal_of_work plan (n ∷ ns) h e =
    ground (arith, h.0.listed, completed-le plan n h.0, all_terminal_of_work plan ns h.1)

pub length-promote : (b t k : ℕ) (ns : List NodeStatus) → length (promote b t k ns) ≡ length ns
unfolding promote
length-promote b t k [] = refl
length-promote b t k (n ∷ ns) =
    ground (arith, length-promote b t k ns, length-promote b t (k + 1) ns)
