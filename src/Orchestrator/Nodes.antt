-- ===== src/Orchestrator/Nodes.antt =====
-- internal/orchestrator/orchestrator.go: the plan, the budget, and the loops over `Status.Nodes`.
use kluster_one.Prelude.{
  ℕ, ◌+◌, Bool, ◌&&◌, List, [], ◌∷◌, ◌++◌, Option, none, some, ok, err, Error, wrap, codes, leb,
  ltb, ◌==◌, if◌then◌else◌, length, ◌%◌, ◌^◌, get_elem?, count_if,
}
use kluster_one.Prelude.Int.{pos, negsuc}
use kluster_one.Api.{
  ActionType, NodeMaintenance, NodeMaintenanceSpec, NodeStatus, ActionSpec, StatusSummary, Phase,
  in_progress, completed, failed, is_pending, is_in_progress, action_name, cordon, script, uncordon,
}
use kluster_one.Kube.{Kube, Node}
use kluster_one.Actions.{Action, Registry, get_action}

abbrev plain : ActionType → ActionSpec
plain t = record { type = t; drain_options = none }

unfoldable pub effective_actions : NodeMaintenanceSpec → List ActionSpec
effective_actions spec = elim spec.actions [
  | _ ∷ _ ↦ spec.actions
  | [] ↦ elim spec.script [ some _ ↦ plain cordon ∷ plain script ∷ plain uncordon ∷ [] | none ↦ [] ]
]

-- `MaxUnavailable` is a Go int, and may be negative.
unfoldable pub effective_budget : NodeMaintenance → ℕ
effective_budget nm =
    if nm.spec.strategy.at_once
    then length nm.status.nodes
    else elim nm.spec.strategy.max_unavailable [ pos n ↦ if ltb 0 n then n else 1 | negsuc _ ↦ 1 ]

-- The first loop of `admit`.
abbrev pub in_flight : List NodeStatus → ℕ
in_flight = count_if (λ ns. is_in_progress ns.phase)

-- The second loop of `admit`, at the value of `inFlight`.
unfoldable pub promote : ℕ → ℕ → ℕ → List NodeStatus → List NodeStatus
promote budget now k [] = []
promote budget now k (ns ∷ rest) =
    let p = is_pending ns.phase in
    let rest' = promote budget now (if p then k + 1 else k) rest in
    if leb budget k
    then ns ∷ rest
    else if p
    then record ns { phase = in_progress; last_transition_time = some now } ∷ rest'
    else ns ∷ rest'

unfoldable pub fail_node : NodeStatus → Error → ℕ → NodeStatus × Option Error
fail_node ns cause now = (
  record ns { phase = failed; message = cause.text; last_transition_time = some now },
  some cause,
)

-- `total++` on an int32, by its bits, and the test `> 0` on one.
abbrev pub inc_32 : ℕ → ℕ
inc_32 n = (n + 1) % 2 ^ 32

abbrev pub is_positive_32 : ℕ → Bool
is_positive_32 n = ltb 0 n && ltb n (2 ^ 31)

-- One round of the loop of `rollup`.
unfoldable pub count_phase : Phase → StatusSummary → StatusSummary
count_phase completed s = record s { completed = inc_32 s.completed }
count_phase failed s = record s { failed = inc_32 s.failed }
count_phase in_progress s = record s { in_progress = inc_32 s.in_progress }
count_phase _ s = record s { pending = inc_32 s.pending }

unfoldable pub tally : List NodeStatus → StatusSummary → StatusSummary
unfolding count_phase
tally [] s = s
tally (ns ∷ rest) s = tally rest (count_phase ns.phase (record s { total = inc_32 s.total }))

-- `advanceNode` behind `action.Execute`: the node and the error as the action left them.
unfoldable pub record_outcome :
    ℕ → ActionSpec → NodeStatus → Option Error → ℕ → NodeStatus × Option Error
unfolding fail_node
record_outcome planned spec ns (some cause) now =
    fail_node ns (wrap (action_name spec.type) cause) now
record_outcome planned spec ns none now =
    let ns' = record ns {
      completed_actions = ns.completed_actions ++ action_name spec.type ∷ [];
      last_transition_time = some now;
      message = [];
    } in
    (
      if length ns'.completed_actions == planned
          then record ns' { phase = completed; current_action = [] }
          else ns',
      none,
    )

module _ (K : Kube) where
  open K use {World, now, get_node}

  -- `advanceNode` from `action.Execute` on.
  unfoldable pub execute :
      Action K
      → NodeMaintenance
      → ℕ
      → ActionSpec
      → Node
      → NodeStatus
      → World
      → NodeStatus × Option Error × World
  unfolding record_outcome
  execute action nm planned spec node ns w =
      let started = record ns { current_action = action_name spec.type } in
      let (ns', e, w') = action nm node started spec w in
      let (ns'', e') = record_outcome planned spec ns' e (now w') in (ns'', e', w')

  -- `advanceNode` from the look-up of the action on.
  unfoldable pub run_action :
      Registry K
      → NodeMaintenance
      → ℕ
      → ActionSpec
      → NodeStatus
      → World
      → NodeStatus × Option Error × World
  unfolding fail_node execute
  run_action reg nm planned spec ns w = elim (get_action K spec.type reg) [
    | err e ↦ let (ns', c) = fail_node ns (wrap (codes "resolve action") e) (now w) in (ns', c, w)
    | ok action ↦
        let (r, w₁) = get_node ns.name w in
        elim r [
          | err e ↦ let (ns', c) = fail_node ns (wrap (codes "get node") e) (now w₁) in (ns', c, w₁)
          | ok node ↦ execute action nm planned spec node ns w₁
        ]
  ]

  unfoldable pub advance_node :
      Registry K → NodeMaintenance → NodeStatus → World → NodeStatus × Option Error × World
  unfolding effective_actions run_action
  advance_node reg nm ns w =
      let plan = effective_actions nm.spec in
      elim (get_elem? plan (length ns.completed_actions)) [
        | none ↦ (
          record ns { phase = completed; current_action = []; last_transition_time = some (now w) },
          none,
          w,
        )
        | some spec ↦ run_action reg nm (length plan) spec ns w
      ]

  -- `firstErr`
  abbrev pub first_error : Option Error → Option Error → Option Error
  first_error (some e) _ = some e
  first_error none e = e

  -- The loop of `runActions`.
  unfoldable pub run_actions_loop :
      Registry K
      → NodeMaintenance
      → List NodeStatus
      → World
      → List NodeStatus × Option Error × World
  unfolding advance_node
  run_actions_loop reg nm [] w = ([], none, w)
  run_actions_loop reg nm (ns ∷ rest) w =
      let (ns', e, w₁) =
        if is_in_progress ns.phase then advance_node reg nm ns w else (ns, none, w) in
      let (rest', e', w₂) = run_actions_loop reg nm rest w₁ in (ns' ∷ rest', first_error e e', w₂)
