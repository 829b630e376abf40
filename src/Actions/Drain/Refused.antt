-- ===== src/Actions/Drain/Refused.antt =====
-- internal/actions/drain.go: whose eviction a pass asks for, and what a refusal makes of `Execute`.
use mathlib.Core.List.{Memᴰ}
use kluster_one.Prelude.{
  ℕ, zero, suc, ◌≡◌, ◌≢◌, refl, ap, ◌∙◌, subst, ◌↔◌, ◌⊎◌, inl, inr, List, [], ◌∷◌, ◌++◌, Option,
  none, some, ok, err, Error, wrap, Bytes, codes, arith, Option-cases, Result-cases, Bool-cases,
}
use kluster_one.Prelude.Int.{ℤ, pos, ltb_ℤ}
use kluster_one.Api.{ActionSpec, DrainOptions}
use kluster_one.Kube.{Kube, Node, Pod}
use kluster_one.Actions.Drain.{
  Drain, Report, Pass-cases, returns, listed_pass, pods_to_evict, evict_all, drain_pass, drain_loop,
  drain_execute, select_evictable, drain_options_or_default, is_transient_api_err,
}
use kluster_one.Actions.Drain.Calls.{
  Ledger, Fatal, Clean, Tells, Asked, Listed, evict_all-Tells, evict_all_asks,
}
use kluster_one.Actions.Drain.Select.{Evictable, select_evictable_iff, not-Memᴰ-nil}

-- A pod of this name that drain must move, and that is not being deleted yet.
pub record Due (opts : DrainOptions) (items : List Pod) (ns n : Bytes) : Type 0 where
  pub pod : Pod
  pub there : Memᴰ pod items
  pub evictable : Evictable opts pod
  pub kept : pod.deletion_timestamp ≡ none
  pub space : pod.ns ≡ ns
  pub called : pod.name ≡ n

listed_pass_failing :
    (p : Pod) (ps : List Pod) (x : Error) → listed_pass (p ∷ ps) (err x) ≡ returns (some x)
unfolding listed_pass
listed_pass_failing p ps x = refl

Clean-Tells : (r : Option Error) (s : List (Bytes × Bytes × Option Error)) → Clean s → Tells r s
unfolding Clean Tells
Clean-Tells r s clean ns n e there fatal = absurd (clean ns n e there fatal)

Clean-nil : Clean []
unfolding Clean
Clean-nil ns n e there = absurd (not-Memᴰ-nil (ns, n, some e) there)

module _ (K : Kube) (ledger : Ledger K) where
  open K use {World, wait, list_pods, now}
  open ledger use {sent}

  module _ (opts : DrainOptions) where
    Due-Listed :
        (items : List Pod) (ns n : Bytes)
        → Listed ns n (select_evictable opts items) ↔ Due opts items ns n
    Due-Listed items ns n = (
      λ l.
          let (there, fit) = (select_evictable_iff opts items l.pod).0 l.there in
          record {
            pod = l.pod;
            there = there;
            evictable = fit;
            kept = l.kept;
            space = l.space;
            called = l.called;
          },
      λ d. record {
        pod = d.pod;
        there = (select_evictable_iff opts items d.pod).1 (d.there, d.evictable);
        kept = d.kept;
        space = d.space;
        called = d.called;
      },
    )

    evict_all_nil : (w : World) → evict_all K opts [] w ≡ (ok [], w)
    unfolding evict_all
    evict_all_nil w = refl

    pods_to_evict_listed :
        (node : Bytes) (w : World) (items : List Pod)
        → (list_pods node w).0 ≡ ok items
        → ((pods_to_evict K node opts w).0 ≡ ok (select_evictable opts items))
          × ((pods_to_evict K node opts w).1 ≡ (list_pods node w).1)
    unfolding pods_to_evict
    pods_to_evict_listed node w items listed = rw (pods_to_evict, listed) (refl, refl)

    pods_to_evict_unread :
        (node : Bytes) (w : World) (e : Error)
        → (list_pods node w).0 ≡ err e
        → ((pods_to_evict K node opts w).0 ≡ err e)
          × ((pods_to_evict K node opts w).1 ≡ (list_pods node w).1)
    unfolding pods_to_evict
    pods_to_evict_unread node w e failed = rw (pods_to_evict, failed) (refl, refl)

    drain_pass_listed :
        (node : Bytes) (last : Report) (w : World) (items : List Pod)
        → (list_pods node w).0 ≡ ok items
        → let ps = select_evictable opts items in
          let (r, w') = evict_all K opts ps (list_pods node w).1 in
          drain_pass K node opts last w ≡ (listed_pass ps r, w')
    unfolding drain_pass pods_to_evict
    drain_pass_listed node last w items listed =
        let (read, behind) = pods_to_evict_listed node w items listed in
        rw (drain_pass, read, behind) refl

    -- A pass whose evictions all go through or are put off went over the whole list.
    passes_ok :
        (ps : List Pod) (v : World)
        → ((e : Error) → listed_pass ps (evict_all K opts ps v).0 ≢ returns (some e))
        → (paths : List Bytes) × ((evict_all K opts ps v).0 ≡ ok paths)
    passes_ok [] v through = ([], ap (λ r. r.0) (evict_all_nil v))
    passes_ok (p ∷ ps) v through = elim (Result-cases (evict_all K opts (p ∷ ps) v).0) [
      | inl (paths, fine) ↦ (paths, fine)
      | inr (x, failing) ↦
          absurd (through x (ap (listed_pass (p ∷ ps)) failing ∙ listed_pass_failing p ps x))
    ]

    -- A pass asks the Eviction API for exactly the pods that drain must move. Of a pass that lists the
    -- node's pods and does not fail, the calls of the Eviction API that it makes are for the pods on the list
    -- that are evictable and not being deleted yet, for each of them and for no other.
    pub drain_pass_asks :
        (node : Bytes) (last : Report) (w : World) (items : List Pod) (ns n : Bytes)
        → (list_pods node w).0 ≡ ok items
        → sent w ≡ []
        → ((e : Error) → (drain_pass K node opts last w).0 ≢ returns (some e))
        → Asked K ledger opts ns n (drain_pass K node opts last w).1 ↔ Due opts items ns n
    drain_pass_asks node last w items ns n listed unsent through =
        let ps = select_evictable opts items in
        let v = (list_pods node w).1 in
        let same = drain_pass_listed node last w items listed in
        let (paths, fine) = passes_ok ps v (λ e h. through e (ap (λ r. r.0) same ∙ h)) in
        let (to, from) = evict_all_asks K ledger opts ps v paths ns n fine in
        let (due, back) = Due-Listed items ns n in
        let before : sent v ≡ [] = ledger.list_pods_sent node w ∙ unsent in
        rw same (
          λ a. elim (to a) [
            | inl l ↦ due l
            | inr (e, there) ↦
                absurd (not-Memᴰ-nil (ns, n, e) (subst (Memᴰ (ns, n, e)) before there))
          ],
          λ d. from (inl (back d)),
        )

    listed_pass-some :
        (ps : List Pod) (v : World) (x : Error)
        → (evict_all K opts ps v).0 ≡ err x
        → listed_pass ps (err x) ≡ returns (some x)
    listed_pass-some [] v x h = absurd (ground (arith, h, ap (λ r. r.0) (evict_all_nil v)))
    listed_pass-some (p ∷ ps) v x h = listed_pass_failing p ps x

    drain_pass_unread :
        (node : Bytes) (last : Report) (w : World) (e : Error)
        → (list_pods node w).0 ≡ err e
        → (drain_pass K node opts last w).1 ≡ (list_pods node w).1
    unfolding drain_pass pods_to_evict
    drain_pass_unread node last w e failed =
        let (read, behind) = pods_to_evict_unread node w e failed in
        elim (Bool-cases (is_transient_api_err e)) [
          | inl passing ↦ rw (drain_pass, read, passing) behind
          | inr lasting ↦ rw (drain_pass, read, lasting) behind
        ]

    drain_pass-Tells :
        (node : Bytes) (last : Report) (w : World)
        → Clean (sent w)
        → let (pass, w') = drain_pass K node opts last w in
          Clean (sent w') ⊎ ((x : Error) × (pass ≡ returns (some x)) × Tells (some x) (sent w'))
    unfolding drain_pass pods_to_evict
    drain_pass-Tells node last w clean =
        let v = (list_pods node w).1 in
        let clean₁ : Clean (sent v) = rw (ledger.list_pods_sent node w) clean in
        elim (Result-cases (list_pods node w).0) [
          | inr (e, failed) ↦ inl (rw (drain_pass_unread node last w e failed) clean₁)
          | inl (items, listed) ↦
              let ps = select_evictable opts items in
              rw (drain_pass_listed node last w items listed)
                (elim (evict_all-Tells K ledger opts ps v clean₁) [
                  | inl (paths, fine, clean₂) ↦ inl clean₂
                  | inr (x, failing, tells) ↦
                      inr (x, ap (listed_pass ps) failing ∙ listed_pass-some ps v x failing, tells)
                ])
        ]

    drain_loop-Tells :
        (fuel : ℕ) (node : Bytes) (deadline poll : ℤ) (last : Report) (w w' : World)
        (r : Option Error)
        → Clean (sent w)
        → drain_loop K fuel node opts deadline poll last w ≡ some (r, w')
        → Tells r (sent w')
    unfolding drain_loop
    drain_loop-Tells zero node deadline poll last w w' r clean h = absurd (ground (arith, h))
    drain_loop-Tells (suc fuel) node deadline poll last w w' r clean h =
        let w₁ = (drain_pass K node opts last w).1 in
        let w₂ = (wait poll w₁).1 in
        elim (drain_pass-Tells node last w clean) [
          | inr (x, stops, tells) ↦
              let out : (some x ≡ r) × (w₁ ≡ w') = ground (arith, h, stops) in
              subst (λ v. Tells r (sent v)) (out.1) (subst (λ e. Tells e (sent w₁)) (out.0) tells)
          | inl clean₁ ↦ elim (Pass-cases (drain_pass K node opts last w).0) [
            | inl (e, done) ↦
                let out : w₁ ≡ w' = ground (arith, h, done) in
                subst (λ v. Tells r (sent v)) out (Clean-Tells r (sent w₁) clean₁)
            | inr (next, going) ↦
                let clean₂ : Clean (sent w₂) = rw (ledger.wait_sent poll w₁) clean₁ in
                elim (Bool-cases (ltb_ℤ deadline (pos (now w₁)))) [
                  | inl late ↦
                      let out : w₁ ≡ w' = ground (arith, h, going, late) in
                      subst (λ v. Tells r (sent v)) out (Clean-Tells r (sent w₁) clean₁)
                  | inr early ↦ elim (Option-cases (wait poll w₁).0) [
                    | inr (e, cancelled) ↦
                        let out : w₂ ≡ w' = ground (arith, h, going, early, cancelled) in
                        subst (λ v. Tells r (sent v)) out (Clean-Tells r (sent w₂) clean₂)
                    | inl waited ↦
                        drain_loop-Tells fuel node deadline poll next w₂ w' r clean₂
                          (ground (arith, h, going, early, waited))
                  ]
                ]
          ]
        ]

  -- An eviction that is refused for good fails the action. If Drain returns, and the API server answered a
  -- call of the Eviction API that Drain made with an error that is not "not found", no 429, no timeout and no
  -- unavailable server, then Drain returns the error "evict <namespace>/<name>" around that very answer.
  pub drain_execute_tells :
      (d : Drain) (fuel : ℕ) (node : Node) (spec : ActionSpec) (w w' : World) (r : Option Error)
      (ns n : Bytes) (e : Error)
      → sent w ≡ []
      → drain_execute K d fuel node spec w ≡ some (r, w')
      → Memᴰ (ns, n, some e) (sent w')
      → Fatal e
      → r ≡ some (wrap (codes "evict " ++ (ns ++ (codes "/" ++ n))) e)
  unfolding drain_execute Tells
  drain_execute_tells d fuel node spec w w' r ns n e unsent ran there fatal =
      let clean : Clean (sent w) = rw unsent Clean-nil in
      let opts = drain_options_or_default spec.drain_options in
      drain_loop-Tells opts fuel node.name _ _ _ w w' r clean ran ns n e there fatal
