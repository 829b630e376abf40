-- ===== src/Cli/Wait.antt =====
-- internal/cli/copy.go: `waitForNMCompletion`, with fuel for its polling loop.
use kluster_one.Prelude.{
  ℕ, zero, suc, ◌+◌, ◌-◌, ◌<◌, ◌≡◌, ◌≢◌, refl, ap, ◌∙◌, inl, inr, [], ◌++◌, Option, none, some, ok,
  err, Error, errorf, wrap, Bytes, codes, arith, if◌then◌else◌, Bool-cases, Option-cases,
  Result-cases, ◌⊎◌,
}
use kluster_one.Prelude.Int.{ℤ, pos, pos_part, ltb_ℤ, ◌+ℤ◌, pos_part-+ℤ}
use kluster_one.Api.{
  NodeMaintenance, Phase, unset, pending, in_progress, completed, failed, unknown,
}
use kluster_one.Kube.{Kube}
use kluster_one.Actions.Drain.Clock.{ClockLaws}

-- `string(phase)`
unfoldable pub phase_name : Phase → Bytes
phase_name unset = []
phase_name pending = codes "Pending"
phase_name in_progress = codes "InProgress"
phase_name completed = codes "Completed"
phase_name failed = codes "Failed"
phase_name (unknown s) = s

abbrev poll_second : ℕ
poll_second = 1000000000

-- The `switch` on the phase: the answer, or that the loop goes on.
unfoldable pub verdict : Bytes → Phase → Option (Option Error)
verdict name completed = some none
verdict name failed = some (
    some (
      errorf (
        codes "nodemaintenance "
        ++ (name ++ (codes " failed; inspect: kubectl nm status " ++ name)))))
verdict name _ = none

module _ (K : Kube) where
  open K use {World, now, wait, get_nm, quote, show_duration}

  timed_out : ℤ → Phase → Error
  timed_out timeout phase = errorf (
      codes "timeout after "
      ++ (show_duration timeout
          ++ (codes " waiting for completion (current phase: "
              ++ (quote (phase_name phase) ++ codes ")"))))

  unfoldable pub wait_for_nm_loop : ℕ → Bytes → ℤ → ℤ → World → Option (Option Error × World)
  unfolding timed_out
  wait_for_nm_loop zero name timeout deadline w = none
  wait_for_nm_loop (suc fuel) name timeout deadline w =
      let (r, w₁) = get_nm name w in
      let (cancelled, w₂) = wait (pos poll_second) w₁ in
      let rest = wait_for_nm_loop fuel name timeout deadline w₂ in
      elim r [
        | err e ↦ some (some (wrap (codes "get nm/" ++ name) e), w₁)
        | ok nm ↦ elim (verdict name nm.status.phase) [
          | some answer ↦ some (answer, w₁)
          | none ↦
              if ltb_ℤ deadline (pos (now w₁))
              then some (some (timed_out timeout nm.status.phase), w₁)
              else elim cancelled [ some e ↦ some (some e, w₂) | none ↦ rest ]
        ]
      ]

  unfoldable pub wait_for_nm_completion : ℕ → Bytes → ℤ → World → Option (Option Error × World)
  wait_for_nm_completion fuel name timeout w =
      wait_for_nm_loop fuel name timeout (pos (now w) +ℤ timeout) w

  completed_of_verdict : (name : Bytes) (p : Phase) → verdict name p ≡ some none → p ≡ completed
  unfolding verdict
  completed_of_verdict name unset h = ground arith
  completed_of_verdict name pending h = ground arith
  completed_of_verdict name in_progress h = ground arith
  completed_of_verdict name completed h = refl
  completed_of_verdict name failed h = ground arith
  completed_of_verdict name (unknown s) h = ground arith

  -- The resource was read as Completed.
  pub record ReadCompleted (name : Bytes) : Type 0 where
    pub at : World
    pub nm : NodeMaintenance
    pub read : (get_nm name at).0 ≡ ok nm
    pub done : nm.status.phase ≡ completed

  wait_for_nm_loop-ReadCompleted :
      (fuel : ℕ) (name : Bytes) (timeout deadline : ℤ) (w w' : World)
      → wait_for_nm_loop fuel name timeout deadline w ≡ some (none, w')
      → ReadCompleted name
  unfolding wait_for_nm_loop
  wait_for_nm_loop-ReadCompleted zero name timeout deadline w w' h = absurd (ground arith)
  wait_for_nm_loop-ReadCompleted (suc fuel) name timeout deadline w w' h =
      let w₁ = (get_nm name w).1 in
      elim (Result-cases (get_nm name w).0) [
        | inr (e, lost) ↦ absurd (ground arith)
        | inl (nm, got) ↦ elim (Option-cases (verdict name nm.status.phase)) [
          | inr (answer, decided) ↦ record {
            at = w;
            nm = nm;
            read = got;
            done = completed_of_verdict name nm.status.phase (ground (arith, decided));
          }
          | inl undecided ↦
              wait_for_nm_loop-ReadCompleted fuel name timeout deadline
                (wait (pos poll_second) w₁).1 w' (ground (arith, undecided))
        ]
      ]

  module _ (clock : ClockLaws K) where
    wait_for_nm_loop_returns :
        (fuel : ℕ) (name : Bytes) (timeout deadline : ℤ) (w : World)
        → pos_part deadline + 1 - now w < fuel
        → (r : Option Error × World) × (wait_for_nm_loop fuel name timeout deadline w ≡ some r)
    unfolding wait_for_nm_loop
    wait_for_nm_loop_returns zero name timeout deadline w enough = absurd (omega arith)
    wait_for_nm_loop_returns (suc fuel) name timeout deadline w enough =
        let w₁ = (get_nm name w).1 in
        let later = clock.get_nm_later name w in
        elim (Result-cases (get_nm name w).0) [
          | inr (e, lost) ↦
              ((some (wrap (codes "get nm/" ++ name) e), w₁), rw (lost, wait_for_nm_loop))
          | inl (nm, got) ↦ elim (Option-cases (verdict name nm.status.phase)) [
            | inr (answer, decided) ↦ ((answer, w₁), ground arith)
            | inl undecided ↦ elim (Bool-cases (ltb_ℤ deadline (pos (now w₁)))) [
              | inl late ↦ ((some (timed_out timeout nm.status.phase), w₁), ground arith)
              | inr early ↦ elim (Option-cases (wait (pos poll_second) w₁).0) [
                | inr (e, cancelled) ↦ ((some e, (wait (pos poll_second) w₁).1), ground arith)
                | inl waited ↦
                    let (r, more) =
                      wait_for_nm_loop_returns fuel name timeout deadline
                        (wait (pos poll_second) w₁).1
                        (ground (arith, clock.wait_advances poll_second w₁ waited)) in
                    (r, ground arith)
              ]
            ]
          ]
        ]

    -- The plugin's wait returns: two more rounds than the timeout has nanoseconds are enough for its loop,
    -- for every behaviour of the API server, as long as the clock runs; and if it returns without an
    -- error, the resource was read as Completed.
    pub wait_for_nm_completion_returns :
        (name : Bytes) (timeout : ℤ) (w : World)
        → (e : Option Error) × (w' : World) × (wait_for_nm_completion
              (pos_part timeout + 2)
              name
              timeout
              w
            ≡ some (e, w'))
          × ((e ≢ none) ⊎ ReadCompleted name)
    unfolding wait_for_nm_completion
    wait_for_nm_completion_returns name timeout w =
        let deadline = pos (now w) +ℤ timeout in
        let ((e, w'), fine) =
          wait_for_nm_loop_returns (pos_part timeout + 2) name timeout deadline w
            (omega (arith, pos_part-+ℤ (now w) timeout)) in
        (
          e,
          w',
          fine,
          elim (Option-cases e) [
            | inr (x, failing) ↦ inl (λ q. ground (arith, q, failing))
            | inl clean ↦ inr (
                wait_for_nm_loop-ReadCompleted (pos_part timeout + 2) name timeout deadline w w'
                  (fine ∙ ap (λ x. some (x, w')) clean))
          ],
        )
