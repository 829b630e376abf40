-- ===== src/Actions/Drain/Empties.antt =====
-- internal/actions/drain.go: what an `Execute` without an error tells of the node; and the action that the
-- registry holds.
use mathlib.Core.List.{Memᴰ}
use kluster_one.Prelude.{
  ℕ, zero, suc, ◌≡◌, ◌∙◌, refl, sym, subst, inl, inr, List, [], ◌∷◌, none, some, Result, ok, err,
  Bytes, arith, Result-cases,
}
use kluster_one.Prelude.Int.{ℤ}
use kluster_one.Api.{DrainOptions, ActionSpec}
use kluster_one.Kube.{Kube, Node, Pod}
use kluster_one.Actions.{Action}
use kluster_one.Actions.Contract.{KeepsProgress}
use kluster_one.Actions.Drain.{
  Drain, Report, Pass-cases, returns, listed_pass, pods_to_evict, evict_all, drain_pass, drain_loop,
  drain_execute, drain_options_or_default, select_evictable,
}
use kluster_one.Actions.Drain.Clock.{ClockLaws}
use kluster_one.Actions.Drain.Select.{Evictable, select_evictable_iff, not-Memᴰ-nil}
use kluster_one.Actions.Drain.Returns.{drain_execute_returns}

module _ (K : Kube) where
  open K use {World, now, wait, list_pods}

  -- The world comes out of a call that lists the node's pods, and none of those is evictable.
  pub record Drained (node : Bytes) (opts : DrainOptions) (after : World) : Type 0 where
    pub before : World
    pub items : List Pod
    pub listed : list_pods node before ≡ (ok items, after)
    pub none_left : (p : Pod) → Memᴰ p items → ¬ Evictable opts p

  pods_to_evict_nil :
      (node : Bytes) (opts : DrainOptions) (w : World)
      → (pods_to_evict K node opts w).0 ≡ ok []
      → Drained node opts (pods_to_evict K node opts w).1
  unfolding pods_to_evict
  pods_to_evict_nil node opts w h = elim (Result-cases (list_pods node w).0) [
    | inr (e, failed) ↦ absurd (ground arith)
    | inl (items, listed) ↦
        let empty : select_evictable opts items ≡ [] = ground arith in
        record {
          before = w;
          items = items;
          listed = ground arith;
          none_left = λ p m e.
              not-Memᴰ-nil p (subst (Memᴰ p) empty ((select_evictable_iff opts items p).1 (m, e)));
        }
  ]

  listed_pass-none :
      (ps : List Pod) (r : Result (List Bytes)) → listed_pass ps r ≡ returns none → ps ≡ []
  unfolding listed_pass
  listed_pass-none [] r h = refl
  listed_pass-none (p ∷ ps) (err e) h = ground arith
  listed_pass-none (p ∷ ps) (ok paths) h = ground arith

  drain_pass-none :
      (node : Bytes) (opts : DrainOptions) (last : Report) (w : World)
      → (drain_pass K node opts last w).0 ≡ returns none
      → ((pods_to_evict K node opts w).0 ≡ ok [])
        × ((drain_pass K node opts last w).1 ≡ (pods_to_evict K node opts w).1)
  unfolding drain_pass evict_all
  drain_pass-none node opts last w h = elim (Result-cases (pods_to_evict K node opts w).0) [
    | inr (e, failed) ↦ absurd (ground arith)
    | inl (items, listed) ↦
        let empty = listed_pass-none items _ (rw (listed, drain_pass) at h) in
        (ground arith, rw (listed, drain_pass) (rw empty refl))
  ]

  drain_loop_empties :
      (fuel : ℕ) (node : Bytes) (opts : DrainOptions) (deadline poll : ℤ) (last : Report)
      (w w' : World)
      → drain_loop K fuel node opts deadline poll last w ≡ some (none, w')
      → Drained node opts w'
  unfolding drain_loop
  drain_loop_empties zero node opts deadline poll last w w' h = absurd (ground arith)
  drain_loop_empties (suc fuel) node opts deadline poll last w w' h =
      let w₁ = (drain_pass K node opts last w).1 in
      elim (Pass-cases (drain_pass K node opts last w).0) [
        | inl (none, done) ↦
            let (empty, same) = drain_pass-none node opts last w done in
            let final : w₁ ≡ w' = ground arith in
            subst (Drained node opts) (sym same ∙ final) (pods_to_evict_nil node opts w empty)
        | inl (some e, done) ↦ absurd (ground arith)
        | inr (next, going) ↦
            drain_loop_empties fuel node opts deadline poll next (wait poll w₁).1 w'
              (ground (arith, going))
      ]

  -- If Drain returns without an error, then its last call listed the pods on the node, and every pod on
  -- that list is a mirror pod, a finished pod or a DaemonSet's pod that the options let stay.
  pub drain_execute_empties :
      (d : Drain) (fuel : ℕ) (node : Node) (spec : ActionSpec) (w w' : World)
      → drain_execute K d fuel node spec w ≡ some (none, w')
      → Drained node.name (drain_options_or_default spec.drain_options) w'
  unfolding drain_execute
  drain_execute_empties d fuel node spec w w' h = drain_loop_empties fuel node.name _ _ _ _ w w' h

  -- The action, with the fuel that is enough.
  unfoldable pub drain_action : ClockLaws K → Drain → Action K
  drain_action clock d nm node ns spec w =
      let (_, _, _, (e, w'), _) = drain_execute_returns K clock d node spec w in (ns, e, w')

  pub drain-KeepsProgress :
      (clock : ClockLaws K) (d : Drain) → KeepsProgress K (drain_action clock d)
  unfolding drain_action
  drain-KeepsProgress clock d = record {
    keeps_name = λ nm node ns spec w. refl;
    keeps_phase = λ nm node ns spec w. refl;
    keeps_completed = λ nm node ns spec w. refl;
  }
