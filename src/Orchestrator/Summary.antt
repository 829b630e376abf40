-- ===== src/Orchestrator/Summary.antt =====
-- internal/orchestrator/orchestrator.go: `rollup`, the counts and the phase of a run.
use kluster_one.Prelude.{
  ℕ, suc, ◌∙◌, ltb, ◌==◌, ◌+◌, ◌<◌, ◌^◌, ◌≡◌, refl, Bool, true, false, not, ◌&&◌, ◌||◌, List, [],
  ◌∷◌, arith, if◌then◌else◌, length, count_if, count_if-le-length,
}
use kluster_one.Api.{
  NodeMaintenance, NodeStatus, StatusSummary, Phase, in_progress, completed, failed, is_in_progress,
  is_completed, is_failed, is_terminal, zero_summary,
}
use kluster_one.Kube.{Kube}
use kluster_one.Orchestrator.Nodes.{in_flight, tally, count_phase, inc_32}
use kluster_one.Orchestrator.{rollup}

abbrev pub all_terminal : List NodeStatus → Bool
all_terminal [] = true
all_terminal (ns ∷ rest) = is_terminal ns.phase && all_terminal rest

abbrev pub any_failed : List NodeStatus → Bool
any_failed [] = false
any_failed (ns ∷ rest) = is_failed ns.phase || any_failed rest

-- Neither in flight nor terminal.
abbrev not_started : Phase → Bool
not_started p = not (is_in_progress p || is_terminal p)

-- The counts, added to those of `s`, with no wrap-around.
abbrev pub counts : List NodeStatus → StatusSummary → StatusSummary
counts ns s = record {
  total = s.total + length ns;
  pending = s.pending + count_if (λ n. not_started n.phase) ns;
  in_progress = s.in_progress + in_flight ns;
  completed = s.completed + count_if (λ n. is_completed n.phase) ns;
  failed = s.failed + count_if (λ n. is_failed n.phase) ns;
}

abbrev Fits : ℕ → StatusSummary → Type 0
Fits k s =
    (s.total + k < 2 ^ 31)
    × (s.pending + k < 2 ^ 31)
    × (s.in_progress + k < 2 ^ 31)
    × (s.completed + k < 2 ^ 31)
    × (s.failed + k < 2 ^ 31)

-- One round of the loop, with no wrap-around.
abbrev bit : Bool → ℕ
bit true = 1
bit false = 0

abbrev counted : Phase → StatusSummary → StatusSummary
counted p s = record {
  total = s.total + 1;
  pending = s.pending + bit (not_started p);
  in_progress = s.in_progress + bit (is_in_progress p);
  completed = s.completed + bit (is_completed p);
  failed = s.failed + bit (is_failed p);
}

count_phase-counted :
    (p : Phase) (k : ℕ) (s : StatusSummary)
    → Fits (suc k) s
    → (count_phase p (record s { total = inc_32 s.total }) ≡ counted p s) × Fits k (counted p s)
unfolding count_phase
count_phase-counted completed k s h = ground arith
count_phase-counted _ k s h = ground arith

counts-counted :
    (n : NodeStatus) (ns : List NodeStatus) (s : StatusSummary)
    → counts ns (counted n.phase s) ≡ counts (n ∷ ns) s
counts-counted n ns s = ground arith

tally-counts :
    (ns : List NodeStatus) (s : StatusSummary) → Fits (length ns) s → tally ns s ≡ counts ns s
unfolding tally
tally-counts [] s h = ground arith
tally-counts (n ∷ ns) s h =
    let (e, fits) = count_phase-counted n.phase (length ns) s h in
    rw e (tally-counts ns (counted n.phase s) fits ∙ counts-counted n ns s)

-- The counts that tell the phase of the run.
all_terminal_iff :
    (ns : List NodeStatus)
    → all_terminal ns ≡ (count_if (λ n. not_started n.phase) ns == 0) && (in_flight ns == 0)
all_terminal_iff [] = refl
all_terminal_iff (n ∷ ns) = ground (arith, all_terminal_iff ns)

any_failed_iff :
    (ns : List NodeStatus) → any_failed ns ≡ ltb 0 (count_if (λ n. is_failed n.phase) ns)
any_failed_iff [] = refl
any_failed_iff (n ∷ ns) = ground (arith, any_failed_iff ns)

module _ (K : Kube) where
  open K use {World}

  -- On a run with nodes, `rollup` counts the nodes of each phase exactly, reports the run done exactly
  -- when every node is completed or failed, and gives it the phase Failed if a node failed, Completed
  -- if none did, and InProgress while a node is not done; the nodes stay as they are. (The counters are
  -- int32: below 2^31 nodes.)
  pub rollup_phase :
      (nm : NodeMaintenance) (w : World)
      → 0 < length nm.status.nodes
      → length nm.status.nodes < 2 ^ 31
      → let ns = nm.status.nodes in
        let (nm', done) = rollup K nm w in
        (done ≡ all_terminal ns)
        × (nm'.status.summary ≡ counts ns zero_summary)
        × (nm'.status.phase ≡ (
            if all_terminal ns then (if any_failed ns then failed else completed) else in_progress))
        × (nm'.status.nodes ≡ ns)
  unfolding rollup
  rollup_phase nm w some_node bound =
      let ns = nm.status.nodes in
      ground (
        arith,
        tally-counts ns zero_summary (omega arith),
        all_terminal_iff ns,
        any_failed_iff ns,
        count_if-le-length (λ n. is_failed n.phase) ns,
      )
