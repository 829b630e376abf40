-- ===== src/Actions/Drain/Calls.antt =====
-- internal/actions/drain.go: the calls of the Eviction API that drain makes, and what their answers do.
use mathlib.Core.List.{Memᴰ}
use kluster_one.Prelude.{
  ℕ, ◌≡◌, ◌≢◌, refl, sym, ap, ◌∙◌, subst, ◌↔◌, ◌⊎◌, inl, inr, Bool, List, [], ◌∷◌, ◌++◌, Option,
  none, some, ok, err, Error, wrap, Bytes, codes, arith, not_found, too_many_requests,
  server_timeout, service_unavailable, timeout, Option-cases, Result-cases, if◌then◌else◌,
}
use kluster_one.Prelude.Int.{ℤ}
use kluster_one.Api.{DrainOptions}
use kluster_one.Kube.{Kube, Pod}
use kluster_one.Actions.Drain.{evict, evict_all, pod_path, eviction_outcome}
use kluster_one.Actions.Drain.Select.{Memᴰ-cases, not-Memᴰ-nil}

-- A record of the calls of the Eviction API: namespace, name and answer.
pub record Ledger (K : Kube) : Type 0 where
  pub sent : K.World → List (Bytes × Bytes × Option Error)
  pub evict_pod_sent :
      (ns n : Bytes) (g : Option ℤ) (w : K.World)
      → let (e, w') = K.evict_pod ns n g w in sent w' ≡ (ns, n, e) ∷ sent w
  pub list_pods_sent : (n : Bytes) (w : K.World) → sent (K.list_pods n w).1 ≡ sent w
  pub wait_sent : (p : ℤ) (w : K.World) → sent (K.wait p w).1 ≡ sent w

-- A refusal that is not passing: the pod is there, and the server is neither busy nor unavailable.
pub record Fatal (e : Error) : Type 0 where
  pub found : e.reason ≢ not_found
  pub unblocked : e.reason ≢ too_many_requests
  pub on_time : e.reason ≢ server_timeout
  pub available : e.reason ≢ service_unavailable
  pub no_timeout : e.reason ≢ timeout

passing_ok : (e : Error) (b : Bool) → eviction_outcome (some e) ≡ ok b → ¬ Fatal e
unfolding eviction_outcome
passing_ok e b h f = ground (arith, h, f.found, f.unblocked, f.on_time, f.available, f.no_timeout)

failing_same : (e x : Error) → eviction_outcome (some e) ≡ err x → e ≡ x
unfolding eviction_outcome
failing_same e x h = ground (arith, h)

no_answer_ok : (x : Error) → eviction_outcome none ≢ err x
unfolding eviction_outcome
no_answer_ok x h = ground (arith, h)

-- No call was refused for good.
unfoldable pub Clean : List (Bytes × Bytes × Option Error) → Type 0
Clean s = (ns n : Bytes) (e : Error) → Memᴰ (ns, n, some e) s → ¬ Fatal e

-- A call that was refused for good gives the result.
unfoldable pub Tells : Option Error → List (Bytes × Bytes × Option Error) → Type 0
Tells r s =
    (ns n : Bytes) (e : Error)
    → Memᴰ (ns, n, some e) s
    → Fatal e
    → r ≡ some (wrap (codes "evict " ++ (ns ++ (codes "/" ++ n))) e)

-- One of the pods has this name and is not being deleted.
pub record Listed (ns n : Bytes) (ps : List Pod) : Type 0 where
  pub pod : Pod
  pub there : Memᴰ pod ps
  pub kept : pod.deletion_timestamp ≡ none
  pub space : pod.ns ≡ ns
  pub called : pod.name ≡ n

Listed-later : (ns n : Bytes) (p : Pod) (ps : List Pod) → Listed ns n ps → Listed ns n (p ∷ ps)
Listed-later ns n p ps l = record {
  pod = l.pod;
  there = Memᴰ.tail l.there;
  kept = l.kept;
  space = l.space;
  called = l.called;
}

Listed-cases :
    (ns n : Bytes) (p : Pod) (ps : List Pod)
    → Listed ns n (p ∷ ps)
    → ((p.deletion_timestamp ≡ none) × (p.ns ≡ ns) × (p.name ≡ n)) ⊎ Listed ns n ps
Listed-cases ns n p ps l = elim (Memᴰ-cases l.there) [
  | inl e ↦ inl (
    ap (λ x. x.deletion_timestamp) (sym e) ∙ l.kept,
    ap (λ x. x.ns) (sym e) ∙ l.space,
    ap (λ x. x.name) (sym e) ∙ l.called,
  )
  | inr later ↦
      inr (record { pod = l.pod; there = later; kept = l.kept; space = l.space; called = l.called })
]

module _ (K : Kube) (ledger : Ledger K) (opts : DrainOptions) where
  open K use {World, wait, list_pods, evict_pod}
  open ledger use {sent}

  -- The eviction of the pod was asked for.
  abbrev pub Asked : Bytes → Bytes → World → Type 0
  Asked ns n w = (e : Option Error) × Memᴰ (ns, n, e) (sent w)

  -- One call, and what its answer does.
  evict_sent :
      (p : Pod) (w : World)
      → (e : Option Error) × ((evict K p opts w).0 ≡ eviction_outcome e)
        × (sent (evict K p opts w).1 ≡ (p.ns, p.name, e) ∷ sent w)
  unfolding evict
  evict_sent p w = (
    (evict_pod p.ns p.name opts.grace_period_seconds w).0,
    refl,
    ledger.evict_pod_sent p.ns p.name opts.grace_period_seconds w,
  )

  step_skips :
      (p : Pod) (ps : List Pod) (w : World) (t : ℕ)
      → p.deletion_timestamp ≡ some t
      → evict_all K opts (p ∷ ps) w ≡ evict_all K opts ps w
  unfolding evict_all
  step_skips p ps w t going = rw (evict_all, going) refl

  step_fails :
      (p : Pod) (ps : List Pod) (w : World) (x : Error)
      → p.deletion_timestamp ≡ none
      → (evict K p opts w).0 ≡ err x
      → evict_all K opts (p ∷ ps) w
        ≡ (err (wrap (codes "evict " ++ pod_path p) x), (evict K p opts w).1)
  unfolding evict_all evict
  step_fails p ps w x kept failing = rw (evict_all, kept, failing) refl

  step_goes_on :
      (p : Pod) (ps : List Pod) (w : World) (b : Bool)
      → p.deletion_timestamp ≡ none
      → (evict K p opts w).0 ≡ ok b
      → let (r, w') = evict_all K opts ps (evict K p opts w).1 in
        evict_all K opts (p ∷ ps) w
        ≡ (elim r [ err e ↦ err e | ok l ↦ ok (if b then pod_path p ∷ l else l) ], w')
  unfolding evict_all evict
  step_goes_on p ps w b kept fine =
      elim (Result-cases (evict_all K opts ps (evict K p opts w).1).0) [
        | inl (l, rest) ↦ rw (evict_all, kept, fine, rest) refl
        | inr (e, rest) ↦ rw (evict_all, kept, fine, rest) refl
      ]

  Clean-more :
      (ns n : Bytes) (e : Option Error) (b : Bool) (s : List (Bytes × Bytes × Option Error))
      → eviction_outcome e ≡ ok b
      → Clean s
      → Clean ((ns, n, e) ∷ s)
  unfolding Clean
  Clean-more ns n e b s fine clean ns' n' x there = elim (Memᴰ-cases there) [
    | inl same ↦ passing_ok x b (ap eviction_outcome (ap (λ c. c.2) same) ∙ fine)
    | inr later ↦ clean ns' n' x later
  ]

  Tells-first :
      (ns n : Bytes) (e : Option Error) (x : Error) (s : List (Bytes × Bytes × Option Error))
      → eviction_outcome e ≡ err x
      → Clean s
      → Tells (some (wrap (codes "evict " ++ (ns ++ (codes "/" ++ n))) x)) ((ns, n, e) ∷ s)
  unfolding Clean Tells
  Tells-first ns n e x s failing clean ns' n' y there fatal = elim (Memᴰ-cases there) [
    | inr later ↦ absurd (clean ns' n' y later fatal)
    | inl same ↦
        let value = failing_same y x (ap eviction_outcome (ap (λ c. c.2) same) ∙ failing) in
        ground (arith, same, value)
  ]

  pub evict_all-Tells :
      (ps : List Pod) (w : World)
      → Clean (sent w)
      → let (r, w') = evict_all K opts ps w in
        ((paths : List Bytes) × (r ≡ ok paths) × Clean (sent w'))
        ⊎ ((x : Error) × (r ≡ err x) × Tells (some x) (sent w'))
  unfolding evict_all
  evict_all-Tells [] w clean = inl ([], refl, clean)
  evict_all-Tells (p ∷ ps) w clean = elim (Option-cases p.deletion_timestamp) [
    | inr (t, going) ↦ rw (step_skips p ps w t going) (evict_all-Tells ps w clean)
    | inl kept ↦
        let (e, called, noted) = evict_sent p w in
        let w₁ = (evict K p opts w).1 in
        elim (Result-cases (eviction_outcome e)) [
          | inr (x, failing) ↦
              let tells = Tells-first p.ns p.name e x (sent w) failing clean in
              rw (step_fails p ps w x kept (called ∙ failing)) (inr (_, refl, rw noted tells))
          | inl (b, fine) ↦
              let clean₁ : Clean (sent w₁) =
                rw noted (Clean-more p.ns p.name e b (sent w) fine clean) in
              rw (step_goes_on p ps w b kept (called ∙ fine)) (elim (evict_all-Tells ps w₁ clean₁) [
                | inl (paths, rest, clean₂) ↦
                    inl (if b then pod_path p ∷ paths else paths, rw rest refl, clean₂)
                | inr (x, rest, tells) ↦ inr (x, rw rest refl, tells)
              ])
        ]
  ]

  -- Who is asked for in a loop that no refusal ends.
  Asked-more :
      (p : Pod) (ns n : Bytes) (w : World)
      → Asked ns n (evict K p opts w).1 ↔ (((p.ns ≡ ns) × (p.name ≡ n)) ⊎ Asked ns n w)
  Asked-more p ns n w =
      let (e, called, noted) = evict_sent p w in
      (
        λ (x, there). elim (Memᴰ-cases (subst (Memᴰ (ns, n, x)) noted there)) [
          | inl same ↦ inl (sym (ap (λ c. c.0) same), sym (ap (λ c. c.1) same))
          | inr later ↦ inr (x, later)
        ],
        λ s. elim s [
          | inl (ns_is, n_is) ↦ (e, rw noted (Memᴰ.head (ground (arith, ns_is, n_is))))
          | inr (x, there) ↦ (x, rw noted (Memᴰ.tail there))
        ],
      )

  pub evict_all_asks :
      (ps : List Pod) (w : World) (paths : List Bytes) (ns n : Bytes)
      → (evict_all K opts ps w).0 ≡ ok paths
      → Asked ns n (evict_all K opts ps w).1 ↔ (Listed ns n ps ⊎ Asked ns n w)
  unfolding evict_all
  evict_all_asks [] w paths ns n fine =
      (λ a. inr a, λ s. elim s [ inl l ↦ absurd (not-Memᴰ-nil l.pod l.there) | inr a ↦ a ])
  evict_all_asks (p ∷ ps) w paths ns n fine = elim (Option-cases p.deletion_timestamp) [
    | inr (t, going) ↦
        let same = step_skips p ps w t going in
        let (to, from) = evict_all_asks ps w paths ns n (rw same at fine) in
        rw same (
          λ a. elim (to a) [ inl l ↦ inl (Listed-later ns n p ps l) | inr before ↦ inr before ],
          λ s. elim s [
            | inr before ↦ from (inr before)
            | inl l ↦ elim (Listed-cases ns n p ps l) [
              | inl (kept, _, _) ↦ absurd (ground (arith, kept, going))
              | inr later ↦ from (inl later)
            ]
          ],
        )
    | inl kept ↦ elim (Result-cases (evict K p opts w).0) [
      | inr (x, failing) ↦
          absurd (ground (arith, fine, ap (λ r. r.0) (step_fails p ps w x kept failing)))
      | inl (b, went) ↦ elim (Result-cases (evict_all K opts ps (evict K p opts w).1).0) [
        | inr (x, stopped) ↦
            absurd (ground (arith, fine, stopped, ap (λ r. r.0) (step_goes_on p ps w b kept went)))
        | inl (l, rest) ↦
            let (to, from) = evict_all_asks ps (evict K p opts w).1 l ns n rest in
            let (more, back) = Asked-more p ns n w in
            rw (step_goes_on p ps w b kept went) (
              λ a. elim (to a) [
                | inl later ↦ inl (Listed-later ns n p ps later)
                | inr asked ↦ elim (more asked) [
                  | inl (space, called) ↦ inl (record {
                    pod = p;
                    there = Memᴰ.head refl;
                    kept = kept;
                    space = space;
                    called = called;
                  })
                  | inr before ↦ inr before
                ]
              ],
              λ s. elim s [
                | inr before ↦ from (inr (back (inr before)))
                | inl first ↦ elim (Listed-cases ns n p ps first) [
                  | inl (_, space, called) ↦ from (inr (back (inl (space, called))))
                  | inr later ↦ from (inl later)
                ]
              ],
            )
      ]
    ]
  ]
