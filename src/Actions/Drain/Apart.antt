-- ===== src/Actions/Drain/Apart.antt =====
-- internal/actions/drain.go: Drain writes none of the NodeMaintenance resources.
use kluster_one.Prelude.{
  ℕ, zero, suc, ◌≡◌, ◌∙◌, refl, inl, inr, List, [], ◌∷◌, Option, some, Error, Bytes, arith,
  Result-cases,
}
use kluster_one.Prelude.Int.{ℤ}
use kluster_one.Api.{DrainOptions}
use kluster_one.Kube.{Kube, Pod}
use kluster_one.Actions.Apart.{Apart, KeepsView}
use kluster_one.Actions.Drain.{
  Pass-cases, Drain, Report, pods_to_evict, evict, evict_all, drain_pass, drain_loop, drain_execute,
}
use kluster_one.Actions.Drain.Clock.{ClockLaws}
use kluster_one.Actions.Drain.Empties.{drain_action}
use kluster_one.Actions.Drain.Returns.{drain_execute_returns}

module _ (K : Kube) (A : Type 0) (view : K.World → A) (apart : Apart K A view) where
  open K use {World, now, wait}

  evict_all_keeps :
      (opts : DrainOptions) (ps : List Pod) (w : World) → view (evict_all K opts ps w).1 ≡ view w
  unfolding evict_all evict
  evict_all_keeps opts [] w = refl
  evict_all_keeps opts (p ∷ ps) w = ground (
    arith,
    evict_all_keeps opts ps w,
    evict_all_keeps opts ps (evict K p opts w).1,
    apart.evict_pod p.ns p.name opts.grace_period_seconds w,
  )

  pods_to_evict_keeps :
      (node : Bytes) (opts : DrainOptions) (w : World)
      → view (pods_to_evict K node opts w).1 ≡ view w
  unfolding pods_to_evict
  pods_to_evict_keeps node opts w = ground (arith, apart.list_pods node w)

  drain_pass_keeps :
      (node : Bytes) (opts : DrainOptions) (last : Report) (w : World)
      → view (drain_pass K node opts last w).1 ≡ view w
  unfolding drain_pass
  drain_pass_keeps node opts last w =
      let w₁ = (pods_to_evict K node opts w).1 in
      elim (Result-cases (pods_to_evict K node opts w).0) [
        | inr (e, failed) ↦
            rw (failed, drain_pass) (ground (arith, pods_to_evict_keeps node opts w))
        | inl (remaining, listed) ↦
            rw (listed, drain_pass)
              (evict_all_keeps opts remaining w₁ ∙ pods_to_evict_keeps node opts w)
      ]

  drain_loop_keeps :
      (fuel : ℕ) (node : Bytes) (opts : DrainOptions) (deadline poll : ℤ) (last : Report)
      (w : World) (r : Option Error × World)
      → drain_loop K fuel node opts deadline poll last w ≡ some r
      → view r.1 ≡ view w
  unfolding drain_loop
  drain_loop_keeps zero node opts deadline poll last w r h = absurd (ground arith)
  drain_loop_keeps (suc fuel) node opts deadline poll last w r h =
      let w₁ = (drain_pass K node opts last w).1 in
      let passed = drain_pass_keeps node opts last w in
      let waited = apart.wait poll w₁ in
      elim (Pass-cases (drain_pass K node opts last w).0) [
        | inl (e, done) ↦ ground (arith, done, h, passed)
        | inr (next, going) ↦ ground (
          arith,
          going,
          h,
          passed,
          waited,
          drain_loop_keeps fuel node opts deadline poll next (wait poll w₁).1 r,
        )
      ]

  pub drain-KeepsView :
      (clock : ClockLaws K) (d : Drain) → KeepsView K A view (drain_action K clock d)
  unfolding drain_action drain_execute
  drain-KeepsView clock d nm node ns spec w =
      let (t, _, _, r, e) = drain_execute_returns K clock d node spec w in
      drain_loop_keeps _ node.name _ _ _ _ w r e
