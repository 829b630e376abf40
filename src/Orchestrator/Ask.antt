-- ===== src/Orchestrator/Ask.antt =====
-- internal/orchestrator/orchestrator.go: Init and Step leave the resource's metadata and specification alone.
use kluster_one.Prelude.{
  ◌≡◌, ◌∙◌, refl, inl, inr, true, false, [], ◌∷◌, arith, Result-cases, List-cases,
}
use kluster_one.Api.{NodeMaintenance, NodeMaintenanceSpec, ObjectMeta}
use kluster_one.Kube.{Kube}
use kluster_one.Actions.{Registry}
use kluster_one.Orchestrator.{
  admit, rollup, run_actions, run_pass, seed, init_fresh, init_status, init, step, resolve_nodes,
}

-- The user's part of the resource.
abbrev pub ask : NodeMaintenance → ObjectMeta × NodeMaintenanceSpec
ask nm = (nm.meta, nm.spec)

module _ (K : Kube) where
  open K use {World}

  rollup_asks : (nm : NodeMaintenance) (w : World) → ask (rollup K nm w).0 ≡ ask nm
  unfolding rollup
  rollup_asks nm w = ground arith

  pub run_pass_asks :
      (reg : Registry K) (nm : NodeMaintenance) (w : World) → ask (run_pass K reg nm w).0 ≡ ask nm
  unfolding run_pass run_actions admit
  run_pass_asks reg nm w =
      rollup_asks (run_actions K reg (admit K nm w) w).0 (run_actions K reg (admit K nm w) w).2

  init_fresh_asks : (nm : NodeMaintenance) (w : World) → ask (init_fresh K nm w).0 ≡ ask nm
  unfolding init_fresh seed
  init_fresh_asks nm w = elim (Result-cases (resolve_nodes K nm.spec w).0) [
    | inr (e, lost) ↦ rw (init_fresh, lost) refl
    | inl ([], found) ↦ rw (init_fresh, found, seed) refl
    | inl (n ∷ names, found) ↦ rw (init_fresh, found, seed) refl
  ]

  pub init_status_asks : (nm : NodeMaintenance) (w : World) → ask (init_status K nm w).0 ≡ ask nm
  unfolding init_status
  init_status_asks nm w = elim (List-cases nm.status.nodes) [
    | inl none_yet ↦ rw (init_status, none_yet) (init_fresh_asks nm w)
    | inr (n, ns, there) ↦ rw (init_status, there) refl
  ]

  pub init_asks : (nm : NodeMaintenance) (w : World) → ask (init K nm w).0 ≡ ask nm
  unfolding init
  init_asks nm w =
      let (nm', r, w') = init_status K nm w in
      let same = init_status_asks nm w in
      elim (Result-cases r) [
        | inr (e, failing) ↦ rw (init, failing) same
        | inl (true, fine) ↦ rw (init, fine) (rollup_asks nm' w' ∙ same)
        | inl (false, skipped) ↦ rw (init, skipped) same
      ]

  pub step_asks :
      (reg : Registry K) (nm : NodeMaintenance) (w : World) → ask (step K reg nm w).0 ≡ ask nm
  unfolding step
  step_asks reg nm w =
      let (nm₁, r, w₁) = init_status K nm w in
      let same = init_status_asks nm w in
      elim (Result-cases r) [
        | inr (e, failing) ↦ rw (step, failing) same
        | inl (b, fine) ↦ rw (step, fine) (run_pass_asks reg nm₁ w₁ ∙ same)
      ]
