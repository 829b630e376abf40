-- ===== src/Orchestrator/Admitted.antt =====
-- internal/orchestrator/orchestrator.go: what a run writes passes the validation of the API.
use kluster_one.Prelude.{
  ◌≡◌, refl, ◌∙◌, ap, subst, sym, inl, inr, true, List, [], ◌∷◌, arith, All, Result-cases,
  List-cases,
}
use kluster_one.Api.{NodeMaintenance, NodeStatus, ActionSpec}
use kluster_one.Api.Schema.{is_listed, admits_phase, admits_spec, IsAdmitted}
use kluster_one.Kube.{Kube}
use kluster_one.Actions.{Registry}
use kluster_one.Actions.Contract.{AllKeepProgress}
use kluster_one.Orchestrator.Nodes.{effective_actions}
use kluster_one.Orchestrator.NodeStep.{Tracks}
use kluster_one.Orchestrator.Progress.{step-Tracks}
use kluster_one.Orchestrator.Runs.{steps, steps_fresh-Tracks}
use kluster_one.Orchestrator.{
  admit, rollup, run_actions, run_pass, seed, init_fresh, init_status, step, resolve_nodes,
}

Tracks-listed :
    (plan : List ActionSpec) (nodes : List NodeStatus)
    → All (Tracks plan) nodes
    → All (λ ns. is_listed ns.phase ≡ true) nodes
Tracks-listed plan [] h = tt
Tracks-listed plan (ns ∷ nodes) (h, more) = (h.listed, Tracks-listed plan nodes more)

module _ (K : Kube) where
  open K use {World}

  -- The phase of the run is listed after it is unset or listed before.
  abbrev PhaseKept : NodeMaintenance → NodeMaintenance → Type 0
  PhaseKept nm nm' = admits_phase nm.status.phase ≡ true → admits_phase nm'.status.phase ≡ true

  rollup-PhaseKept : (nm : NodeMaintenance) (w : World) → PhaseKept nm (rollup K nm w).0
  unfolding rollup admits_phase
  rollup-PhaseKept nm w h = ground (arith, h)

  run_pass-PhaseKept :
      (reg : Registry K) (nm : NodeMaintenance) (w : World) → PhaseKept nm (run_pass K reg nm w).0
  unfolding run_pass run_actions admit
  run_pass-PhaseKept reg nm w h =
      rollup-PhaseKept (run_actions K reg (admit K nm w) w).0 (run_actions K reg (admit K nm w) w).2
        h

  init_fresh-PhaseKept : (nm : NodeMaintenance) (w : World) → PhaseKept nm (init_fresh K nm w).0
  unfolding init_fresh seed admits_phase
  init_fresh-PhaseKept nm w h = elim (Result-cases (resolve_nodes K nm.spec w).0) [
    | inr (e, lost) ↦ rw (init_fresh, lost) h
    | inl ([], found) ↦ rw (init_fresh, found, seed) refl
    | inl (n ∷ names, found) ↦ rw (init_fresh, found, seed) refl
  ]

  init_status-PhaseKept : (nm : NodeMaintenance) (w : World) → PhaseKept nm (init_status K nm w).0
  unfolding init_status
  init_status-PhaseKept nm w h = elim (List-cases nm.status.nodes) [
    | inl none_yet ↦ rw (init_status, none_yet) (init_fresh-PhaseKept nm w h)
    | inr (n, ns, there) ↦ rw (init_status, there) h
  ]

  step-PhaseKept :
      (reg : Registry K) (nm : NodeMaintenance) (w : World) → PhaseKept nm (step K reg nm w).0
  unfolding step
  step-PhaseKept reg nm w h =
      let (nm₁, r, w₁) = init_status K nm w in
      let kept = init_status-PhaseKept nm w h in
      elim (Result-cases r) [
        | inr (e, failing) ↦ rw (step, failing) kept
        | inl (b, fine) ↦ rw (step, fine) (run_pass-PhaseKept reg nm₁ w₁ kept)
      ]

  steps_keep :
      (reg : Registry K) (changes : List (World → World)) (nm : NodeMaintenance) (w : World)
      → AllKeepProgress K reg
      → All (Tracks (effective_actions nm.spec)) nm.status.nodes
      → let nm' = (steps K reg changes nm w).0 in PhaseKept nm nm' × (nm'.spec ≡ nm.spec)
  unfolding steps
  steps_keep reg [] nm w keep h = (λ p. p, refl)
  steps_keep reg (change ∷ more) nm w keep h =
      let nm' = (step K reg nm (change w)).0 in
      let w' = (step K reg nm (change w)).2 in
      let (after, same) = step-Tracks K reg nm (change w) keep h in
      let here =
        subst (λ s. All (Tracks (effective_actions s)) nm'.status.nodes) (sym same) after in
      let (kept, same') = steps_keep reg more nm' w' keep here in
      (λ p. kept (step-PhaseKept reg nm (change w) p), same' ∙ same)

  -- What a run writes passes the validation markers of the API: after any number of Steps on a resource
  -- without nodes that the schema admits, whatever the cluster does and however the actions answer, the
  -- schema admits the resource again. (The registered actions leave a node's progress alone.)
  pub steps_fresh-IsAdmitted :
      (reg : Registry K) (changes : List (World → World)) (nm : NodeMaintenance) (w : World)
      → AllKeepProgress K reg
      → nm.status.nodes ≡ []
      → IsAdmitted nm
      → IsAdmitted (steps K reg changes nm w).0
  steps_fresh-IsAdmitted reg changes nm w keep fresh a =
      let (kept, same) = steps_keep reg changes nm w keep (rw fresh tt) in
      record {
        spec = ap (λ s. admits_spec s) same ∙ a.spec;
        phase = kept a.phase;
        nodes =
            Tracks-listed (effective_actions nm.spec) (steps K reg changes nm w).0.status.nodes
              (steps_fresh-Tracks K reg changes nm w keep fresh);
      }
