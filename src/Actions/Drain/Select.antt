-- ===== src/Actions/Drain/Select.antt =====
-- internal/actions/drain.go: which pods are evicted.
use mathlib.Core.List.{Memᴰ}
use kluster_one.Prelude.{
  ◌≡◌, ◌≢◌, ◌↔◌, ◌⊎◌, inl, inr, refl, ap, true, false, List, [], ◌∷◌, arith, none, some, Bool-cases,
  Option-cases, subst, sym, Bytes, codes,
}
use kluster_one.Prelude.Strings.{lookup, bytes_eq, bytes_eq_refl, bytes_eq_sound}
use kluster_one.Api.{DrainOptions}
use kluster_one.Kube.{Pod, PodPhase}
use kluster_one.Actions.Drain.{
  select_evictable, mirror_pod_annotation, is_mirror_pod, any_daemon_set, is_owned_by_daemon_set,
  is_finished,
}

-- A pod that drain must move: it has not the annotation of mirror pods, no DaemonSet owns it if those are
-- ignored, and it is not finished.
pub record Evictable (opts : DrainOptions) (p : Pod) : Type 0 where
  pub no_mirror : (v : Bytes) → ¬ Memᴰ (codes "kubernetes.io/config.mirror", v) p.annotations
  pub no_daemon : opts.ignore_daemon_sets ≡ true → ¬ Memᴰ (codes "DaemonSet") p.owner_kinds
  pub running : (p.phase ≢ PodPhase.succeeded) × (p.phase ≢ PodPhase.failed)

pub Memᴰ-cases {ℓ} : {A : Type ℓ} {a x : A} {xs : List A} → Memᴰ a (x ∷ xs) → (a ≡ x) ⊎ Memᴰ a xs
Memᴰ-cases (Memᴰ.head e) = inl e
Memᴰ-cases (Memᴰ.tail m) = inr m

pub not-Memᴰ-nil {ℓ} : {A : Type ℓ} (a : A) → ¬ Memᴰ a []
not-Memᴰ-nil a m = elim m [ ]

lookup_absent : (k v : Bytes) (m : List (Bytes × Bytes)) → lookup k m ≡ none → ¬ Memᴰ (k, v) m
unfolding lookup
lookup_absent k v [] h there = not-Memᴰ-nil (k, v) there
lookup_absent k v ((j, u) ∷ m) h there = elim (Bool-cases (bytes_eq j k)) [
  | inl same ↦ absurd (ground (arith, h, same))
  | inr other ↦ elim (Memᴰ-cases there) [
    | inl e ↦
        let same : bytes_eq j k ≡ true = rw (ap (λ x. x.0) e) (bytes_eq_refl j) in
        absurd (ground (arith, other, same))
    | inr later ↦ lookup_absent k v m (ground (arith, h, other)) later
  ]
]

lookup_there : (k v : Bytes) (m : List (Bytes × Bytes)) → lookup k m ≡ some v → Memᴰ (k, v) m
unfolding lookup
lookup_there k v [] h = absurd (ground arith)
lookup_there k v ((j, u) ∷ m) h = elim (Bool-cases (bytes_eq j k)) [
  | inl same ↦
      let key = bytes_eq_sound j k same in
      let value : u ≡ v = ground (arith, h, same) in Memᴰ.head (ground (arith, key, value))
  | inr other ↦ Memᴰ.tail (lookup_there k v m (ground (arith, h, other)))
]

mirror_cases :
    (p : Pod)
    → ((is_mirror_pod p ≡ true)
        × (v : Bytes) × Memᴰ (codes "kubernetes.io/config.mirror", v) p.annotations)
      ⊎ ((is_mirror_pod p ≡ false)
          × ((v : Bytes) → ¬ Memᴰ (codes "kubernetes.io/config.mirror", v) p.annotations))
unfolding is_mirror_pod
mirror_cases p = elim (Option-cases (lookup mirror_pod_annotation p.annotations)) [
  | inl absent ↦ inr (
    rw (is_mirror_pod, absent) refl,
    λ v. lookup_absent mirror_pod_annotation v p.annotations absent,
  )
  | inr (v, there) ↦
      inl (
        rw (is_mirror_pod, there) refl,
        v,
        lookup_there mirror_pod_annotation v p.annotations there,
      )
]

any_daemon_cases :
    (kinds : List Bytes)
    → ((any_daemon_set kinds ≡ true) × Memᴰ (codes "DaemonSet") kinds)
      ⊎ ((any_daemon_set kinds ≡ false) × (¬ Memᴰ (codes "DaemonSet") kinds))
any_daemon_cases [] = inr (refl, not-Memᴰ-nil (codes "DaemonSet"))
any_daemon_cases (k ∷ kinds) = elim (Bool-cases (bytes_eq k (codes "DaemonSet"))) [
  | inl same ↦ inl (rw same refl, Memᴰ.head (sym (bytes_eq_sound k (codes "DaemonSet") same)))
  | inr other ↦ elim (any_daemon_cases kinds) [
    | inl (found, there) ↦ inl (rw (other, found) refl, Memᴰ.tail there)
    | inr (unfound, absent) ↦ inr (
      rw (other, unfound) refl,
      λ there. elim (Memᴰ-cases there) [
        | inl e ↦
            let same : bytes_eq k (codes "DaemonSet") ≡ true = rw e (bytes_eq_refl k) in
            absurd (ground (arith, other, same))
        | inr later ↦ absent later
      ],
    )
  ]
]

finished_cases :
    (p : PodPhase)
    → ((is_finished p ≡ true) × ((p ≡ PodPhase.succeeded) ⊎ (p ≡ PodPhase.failed)))
      ⊎ ((is_finished p ≡ false) × (p ≢ PodPhase.succeeded) × (p ≢ PodPhase.failed))
finished_cases p = ground arith

select_step :
    (opts : DrainOptions) (q : Pod) (ps : List Pod)
    → (Evictable opts q × (select_evictable opts (q ∷ ps) ≡ q ∷ select_evictable opts ps))
      ⊎ ((¬ Evictable opts q) × (select_evictable opts (q ∷ ps) ≡ select_evictable opts ps))
unfolding select_evictable is_owned_by_daemon_set
select_step opts q ps = elim (mirror_cases q) [
  | inl (m, v, there) ↦ inr (λ e. e.no_mirror v there, rw m)
  | inr (m, plain) ↦ elim (finished_cases q.phase) [
    | inl (f, over) ↦
        inr (λ e. elim over [ inl h ↦ e.running.0 h | inr h ↦ e.running.1 h ], ground (arith, m, f))
    | inr (f, alive, well) ↦ elim (Bool-cases opts.ignore_daemon_sets) [
      | inr all ↦ inl (
        record {
          no_mirror = plain;
          no_daemon = λ h. absurd (ground (arith, all, h));
          running = (alive, well);
        },
        ground (arith, m, f, all),
      )
      | inl ignored ↦ elim (any_daemon_cases q.owner_kinds) [
        | inl (d, owned) ↦ inr (λ e. e.no_daemon ignored owned, ground (arith, m, d, ignored))
        | inr (d, free) ↦ inl (
          record { no_mirror = plain; no_daemon = λ _. free; running = (alive, well) },
          ground (arith, m, f, d, ignored),
        )
      ]
    ]
  ]
]

select_sound :
    (opts : DrainOptions) (ps : List Pod) (p : Pod)
    → Memᴰ p (select_evictable opts ps)
    → Memᴰ p ps × Evictable opts p
select_sound opts [] p m = absurd (not-Memᴰ-nil p (unfold select_evictable in m))
select_sound opts (q ∷ ps) p m = elim (select_step opts q ps) [
  | inl (e, kept) ↦ elim (Memᴰ-cases (subst (Memᴰ p) kept m)) [
    | inl same ↦ (Memᴰ.head same, subst (Evictable opts) (sym same) e)
    | inr later ↦ let (there, fit) = select_sound opts ps p later in (Memᴰ.tail there, fit)
  ]
  | inr (_, dropped) ↦
      let (there, fit) = select_sound opts ps p (subst (Memᴰ p) dropped m) in (Memᴰ.tail there, fit)
]

select_complete :
    (opts : DrainOptions) (ps : List Pod) (p : Pod)
    → Memᴰ p ps
    → Evictable opts p
    → Memᴰ p (select_evictable opts ps)
select_complete opts [] p m e = absurd (not-Memᴰ-nil p m)
select_complete opts (q ∷ ps) p m e = elim (select_step opts q ps) [
  | inl (_, kept) ↦ rw kept (elim (Memᴰ-cases m) [
    | inl same ↦ Memᴰ.head same
    | inr later ↦ Memᴰ.tail (select_complete opts ps p later e)
  ])
  | inr (unfit, dropped) ↦ rw dropped (elim (Memᴰ-cases m) [
    | inl same ↦ absurd (unfit (subst (Evictable opts) same e))
    | inr later ↦ select_complete opts ps p later e
  ])
]

-- The pods that are selected are exactly the listed pods that are evictable.
pub select_evictable_iff :
    (opts : DrainOptions) (ps : List Pod) (p : Pod)
    → Memᴰ p (select_evictable opts ps) ↔ (Memᴰ p ps × Evictable opts p)
select_evictable_iff opts ps p = (select_sound opts ps p, λ (m, e). select_complete opts ps p m e)
