-- ===== src/Actions/Drain/Returns.antt =====
-- internal/actions/drain.go: the fuel of the loop of `Execute`.
use kluster_one.Prelude.{
  ℕ, zero, suc, ◌+◌, ◌-◌, ◌≤◌, ◌<◌, ◌≡◌, inl, inr, List, [], ◌∷◌, Option, none, some, Error, Bytes,
  arith, Bool-cases, Option-cases, Result-cases, ltb,
}
use kluster_one.Prelude.Int.{ℤ, pos, ltb_ℤ, pos-+ℤ, pos_of_ltb_ℤ, seconds}
use kluster_one.Api.{DrainOptions, ActionSpec}
use kluster_one.Kube.{Kube, Node, Pod}
use kluster_one.Actions.Drain.{
  drain_timeout_error, Pass-cases, Drain, Report, pods_to_evict, evict, evict_all, drain_pass,
  drain_loop, drain_timeout, drain_poll, drain_execute, drain_options_or_default,
}
use kluster_one.Actions.Drain.Clock.{ClockLaws}

module _ (K : Kube) (clock : ClockLaws K) where
  open K use {World, now, wait}

  evict_all_later :
      (opts : DrainOptions) (ps : List Pod) (w : World) → now w ≤ now (evict_all K opts ps w).1
  unfolding evict_all evict
  evict_all_later opts [] w = omega arith
  evict_all_later opts (p ∷ ps) w = ground (
    arith,
    evict_all_later opts ps w,
    evict_all_later opts ps (evict K p opts w).1,
    clock.evict_pod_later p.ns p.name opts.grace_period_seconds w,
  )

  pods_to_evict_later :
      (node : Bytes) (opts : DrainOptions) (w : World) → now w ≤ now (pods_to_evict K node opts w).1
  unfolding pods_to_evict
  pods_to_evict_later node opts w = ground (arith, clock.list_pods_later node w)

  drain_pass_later :
      (node : Bytes) (opts : DrainOptions) (last : Report) (w : World)
      → now w ≤ now (drain_pass K node opts last w).1
  unfolding drain_pass
  drain_pass_later node opts last w =
      let w₁ = (pods_to_evict K node opts w).1 in
      elim (Result-cases (pods_to_evict K node opts w).0) [
        | inr (e, failed) ↦
            rw (failed, drain_pass) (ground (arith, pods_to_evict_later node opts w))
        | inl (remaining, listed) ↦
            rw (listed, drain_pass)
              (omega (arith, pods_to_evict_later node opts w, evict_all_later opts remaining w₁))
      ]

  drain_loop_returns :
      (fuel : ℕ) (node : Bytes) (opts : DrainOptions) (deadline poll : ℕ) (last : Report)
      (w : World)
      → 0 < poll
      → deadline + 1 - now w < fuel
      → (r : Option Error × World) × (drain_loop K fuel node opts (pos deadline) (pos poll) last w
          ≡ some r)
  unfolding drain_loop
  drain_loop_returns zero node opts deadline poll last w h enough = absurd (omega arith)
  drain_loop_returns (suc fuel) node opts deadline poll last w h enough =
      let w₁ = (drain_pass K node opts last w).1 in
      let later = drain_pass_later node opts last w in
      elim (Pass-cases (drain_pass K node opts last w).0) [
        | inl (e, done) ↦ ((e, w₁), rw (done, drain_loop))
        | inr (next, going) ↦
            rw (going, drain_loop)
              (elim (Bool-cases (ltb deadline (now w₁))) [
                | inl late ↦ (
                  (some (drain_timeout_error node next.count next.blocked next.list_err), w₁),
                  ground arith,
                )
                | inr early ↦ elim (Option-cases (wait (pos poll) w₁).0) [
                  | inr (e, cancelled) ↦ ((some e, (wait (pos poll) w₁).1), ground arith)
                  | inl waited ↦
                      let (r, more) =
                        drain_loop_returns fuel node opts deadline poll next (wait (pos poll) w₁).1
                          h (ground (arith, clock.wait_advances poll w₁ waited)) in
                      (r, ground arith)
                ]
              ])
      ]

  drain_timeout_pos :
      (d : Drain) (opts : DrainOptions) → (t : ℕ) × (drain_timeout d opts ≡ pos t) × (0 < t)
  unfolding drain_timeout
  drain_timeout_pos d opts =
      let t : ℤ = elim opts.timeout_seconds [ none ↦ d.default_timeout | some s ↦ seconds s ] in
      elim (Bool-cases (ltb_ℤ (pos 0) t)) [
        | inl positive ↦ let (n, e, h) = pos_of_ltb_ℤ t positive in (n, rw positive e, h)
        | inr other ↦ (300000000000, rw other, omega arith)
      ]

  drain_poll_pos : (d : Drain) → (p : ℕ) × (drain_poll d ≡ pos p) × (0 < p)
  unfolding drain_poll
  drain_poll_pos d = elim (Bool-cases (ltb_ℤ (pos 0) d.poll_interval)) [
    | inl positive ↦ let (n, e, h) = pos_of_ltb_ℤ d.poll_interval positive in (n, rw positive e, h)
    | inr other ↦ (5000000000, rw other, omega arith)
  ]

  -- Drain returns. Its timeout is a positive number of nanoseconds, whatever the options say (an overflow
  -- of the seconds included), and two more rounds than that are enough for the loop, for every behaviour
  -- of the API server and every poll interval, as long as the clock runs.
  pub drain_execute_returns :
      (d : Drain) (node : Node) (spec : ActionSpec) (w : World)
      → (t : ℕ) × (drain_timeout d (drain_options_or_default spec.drain_options) ≡ pos t)
        × (0 < t)
        × (r : Option Error × World) × (drain_execute K d (t + 2) node spec w ≡ some r)
  unfolding drain_execute
  drain_execute_returns d node spec w =
      let opts = drain_options_or_default spec.drain_options in
      let (t, timeout, some_time) = drain_timeout_pos d opts in
      let (p, poll, some_poll) = drain_poll_pos d in
      let (r, e) =
        drain_loop_returns (t + 2) node.name opts (now w + t) p
          (record { blocked = []; list_err = none; count = 0 }) w some_poll (omega arith) in
      (t, timeout, some_time, r, rw (timeout, poll, pos-+ℤ) e)
