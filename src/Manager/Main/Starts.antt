-- ===== src/Manager/Main/Starts.antt =====
-- cmd/manager/main.go: when `main` starts the controller.
use kluster_one.Prelude.{
  ◌≡◌, ◌≢◌, refl, ◌⊎◌, inl, inr, ℕ, List, [], ◌∷◌, Option, none, some, Error, Bytes, codes, arith,
  Option-cases,
}
use kluster_one.Kube.{Kube}
use kluster_one.Actions.Drain.Clock.{ClockLaws}
use kluster_one.Controller.{Reconciler}
use kluster_one.Manager.{manager_reconciler}
use kluster_one.Manager.Main.{
  MainFlags, Runtime, Finish, panics, exits, flags, stops, Parsed-cases, default_flags, or_exit,
  run_manager, manager_main,
}

-- A call of the set-up.
abbrev pub Call : Type 0 → Type 0
Call W = W → Option Error × W

-- From one world to the other, all calls succeed.
abbrev pub Succeed : {W : Type 0} → List (Call W) → W → W → Type 0
Succeed [] w w' = w ≡ w'
Succeed (c ∷ calls) w w' = ((c w).0 ≡ none) × Succeed calls (c w).1 w'

-- One of the calls fails, the ones before it succeed, and it leaves this world.
abbrev pub Fail : {W : Type 0} → List (Call W) → W → W → Type 0
Fail [] w w' = ⊥
Fail (c ∷ calls) w w' =
    (((c w).0 ≢ none) × ((c w).1 ≡ w')) ⊎ (((c w).0 ≡ none) × Fail calls (c w).1 w')

module _ (K : Kube) (clock : ClockLaws K) where
  open K use {World}

  -- What starting the controller does.
  abbrev pub Start : Type 0
  Start = Reconciler K → World → Option Error × World

  abbrev pub with_start : Runtime K → Start → Runtime K
  with_start R s = record R { start = s }

  -- The set-up, in order.
  abbrev pub set_up : Runtime K → MainFlags → List (Call World)
  set_up R f =
      R.get_config
      ∷ R.new_manager f.probe_addr f.metrics_addr
      ∷ R.new_for_config
      ∷ R.complete (manager_reconciler K clock f.wiring)
      ∷ R.add_healthz_check (codes "healthz")
      ∷ R.add_readyz_check (codes "readyz")
      ∷ []

  abbrev pub closes : Option Error × World → Finish × World
  closes (none, w) = (exits 0, w)
  closes (some e, w) = (exits 1, w)

  -- A call of the set-up fails, and the process exits with 1, whatever starting would do; or all succeed,
  -- and the process starts the reconciler and ends as that does.
  abbrev pub Outcome : List (Call World) → Reconciler K → World → (Start → Finish × World) → Type 0
  Outcome calls r w run =
      (w' : World) × ((Fail calls w w' × ((s : Start) → run s ≡ (exits 1, w')))
        ⊎ (Succeed calls w w' × ((s : Start) → run s ≡ closes (s r w'))))

  tested :
      (c : Call World) (calls : List (Call World)) (r : Reconciler K) (w : World)
      (next : Start → World → Finish × World)
      → Outcome calls r (c w).1 (λ s. next s (c w).1)
      → Outcome (c ∷ calls) r w (λ s. or_exit (c w) (next s))
  unfolding or_exit
  tested c calls r w next h = elim (Option-cases (c w).0) [
    | inr (e, failed) ↦ (
      (c w).1,
      inl (inl (λ fine. ground (arith, fine, failed), refl), λ s. rw (or_exit, failed) refl),
    )
    | inl fine ↦
        let (w', ends) = h in
        elim ends [
          | inl (fail, same) ↦ (w', inl (inr (fine, fail), λ s. rw (or_exit, fine) (same s)))
          | inr (good, same) ↦ (w', inr ((fine, good), λ s. rw (or_exit, fine) (same s)))
        ]
  ]

  closed : (a : Option Error × World) → or_exit a (λ w. (exits 0, w)) ≡ closes a
  unfolding or_exit
  closed (none, w) = refl
  closed (some e, w) = refl

  run_manager-Outcome :
      (R : Runtime K) (f : MainFlags) (w : World)
      → Outcome
          (set_up R f)
          (manager_reconciler K clock f.wiring)
          w
          (λ s. run_manager K clock (with_start R s) f w)
  unfolding run_manager
  run_manager-Outcome R f w =
      let r = manager_reconciler K clock f.wiring in
      let manager = R.new_manager f.probe_addr f.metrics_addr in
      let client = R.new_for_config in
      let complete = R.complete r in
      let healthz = R.add_healthz_check (codes "healthz") in
      let readyz = R.add_readyz_check (codes "readyz") in
      let w₁ = (R.get_config w).1 in
      let w₂ = (manager w₁).1 in
      let w₃ = (client w₂).1 in
      let w₄ = (complete w₃).1 in
      let w₅ = (healthz w₄).1 in
      let w₆ = (readyz w₅).1 in
      tested R.get_config (manager ∷ client ∷ complete ∷ healthz ∷ readyz ∷ []) r w _ (
        tested manager (client ∷ complete ∷ healthz ∷ readyz ∷ []) r w₁ _ (
          tested client (complete ∷ healthz ∷ readyz ∷ []) r w₂ _ (
            tested complete (healthz ∷ readyz ∷ []) r w₃ _ (
              tested healthz (readyz ∷ []) r w₄ _
                (tested readyz [] r w₅ _ (w₆, inr (refl, λ s. closed (s r w₆))))))))

  -- The four ways in which the process ends.
  abbrev pub Endings : Runtime K → List Bytes → World → Type 0
  Endings R args w =
      ((e : Error) × ((R.add_to_scheme w).0 ≡ some e)
        × ((s : Start) → (manager_main K clock (with_start R s) args w).0 ≡ panics))
      ⊎ ((code : ℕ) × (R.parse default_flags args ≡ stops code)
          × ((s : Start) → (manager_main K clock (with_start R s) args w).0 ≡ exits code))
      ⊎ (f : MainFlags) × (R.parse default_flags args ≡ flags f)
        × Outcome (set_up R f) (manager_reconciler K clock f.wiring) (R.add_to_scheme w).1
            (λ s. manager_main K clock (with_start R s) args w)

  -- The process starts the controller only after all of its set-up has succeeded, and then with the
  -- reconciler of its flags. Whatever the libraries answer, one of these holds: registering the types fails
  -- and the process panics; the flags end it, with the code that the flag package gives; a call of the set-up
  -- fails, and it exits with 1 in the state that this call left, whatever starting would do; or all calls
  -- succeed, it starts the controller with the reconciler that the parsed flags give, and exits with 0 if
  -- that ends without an error, with 1 otherwise.
  pub manager_main-Endings : (R : Runtime K) (args : List Bytes) (w : World) → Endings R args w
  unfolding manager_main
  manager_main-Endings R args w = elim (Option-cases (R.add_to_scheme w).0) [
    | inr (e, failed) ↦ inl (e, failed, λ s. rw (manager_main, failed) refl)
    | inl registered ↦ elim (Parsed-cases (R.parse default_flags args)) [
      | inl (code, ended) ↦ inr (inl (code, ended, λ s. rw (manager_main, registered, ended) refl))
      | inr (f, parsed) ↦
          let (w', ends) = run_manager-Outcome R f (R.add_to_scheme w).1 in
          inr (
            inr (
              f,
              parsed,
              (
                w',
                elim ends [
                  | inl (fail, same) ↦
                      inl (fail, λ s. rw (manager_main, registered, parsed) (same s))
                  | inr (good, same) ↦
                      inr (good, λ s. rw (manager_main, registered, parsed) (same s))
                ],
              ),
            ))
    ]
  ]
