-- ===== src/Controller/Retry/Holds.antt =====
-- internal/controller/nodemaintenance_controller.go: the states of a run over the names of its targets.
use kluster_one.Prelude.{
  ◌<◌, ◌^◌, ◌≡◌, ap, ◌∙◌, ◌⊎◌, inl, inr, true, false, List, [], ◌∷◌, ok, Bytes, arith, length,
}
use kluster_one.Api.{NodeMaintenance, ActionSpec, is_terminal}
use kluster_one.Kube.{Kube}
use kluster_one.Actions.Contract.{AllKeepProgress}
use kluster_one.Orchestrator.{init, resolve_nodes}
use kluster_one.Orchestrator.Course.{OnCourse, node_names, names_pending, init_settled, step_course}
use kluster_one.Orchestrator.Fresh.{init-Seeded}
use kluster_one.Orchestrator.Nodes.{effective_actions}
use kluster_one.Orchestrator.Termination.{nonempty}
use kluster_one.Controller.Fresh.{Runs-of_Seeded}
use kluster_one.Controller.Idle.{nodes_of_is_fresh}
use kluster_one.Controller.Retry.{sent}
use kluster_one.Controller.Retry.End.{Live-of_run, sent_run, sent_fresh}
use kluster_one.Controller.Retry.Sends.{Live}
use kluster_one.Controller.Retry.Same.{
  SameRun, Runs-SameRun, is_fresh-SameRun, resolve_nodes-SameRun,
}
use kluster_one.Controller.{Reconciler, is_fresh, render}

module _ (K : Kube) where
  open K use {World, get_nm}

  -- A resource without a status whose targets resolve to the names whatever the cluster is.
  pub record Awaits (plan : List ActionSpec) (names : List Bytes) (nm : NodeMaintenance)
      : Type 0 where
    pub fresh : is_fresh nm ≡ true
    pub planned : effective_actions nm.spec ≡ plan
    pub found : (v : World) → (resolve_nodes K nm.spec v).0 ≡ ok names

  -- The state of a run over the names, before it starts and from then on.
  abbrev pub Holds : List ActionSpec → List Bytes → NodeMaintenance → Type 0
  Holds plan names nm = Awaits plan names nm ⊎ OnCourse plan names nm

  pub Holds-SameRun :
      (plan : List ActionSpec) (names : List Bytes) (nm x : NodeMaintenance)
      → SameRun nm x
      → Holds plan names nm
      → Holds plan names x
  Holds-SameRun plan names nm x same (inl a) = inl (record {
    fresh = is_fresh-SameRun nm x same ∙ a.fresh;
    planned = same.plan ∙ a.planned;
    found = λ v. resolve_nodes-SameRun K nm x v same ∙ a.found v;
  })
  Holds-SameRun plan names nm x same (inr c) = inr (record {
    run = Runs-SameRun plan nm x same c.run;
    named = ap (λ s. node_names s.nodes) same.status ∙ c.named;
    settled = rw (same.status) c.settled;
  })

  init_course :
      (n : Bytes) (names : List Bytes) (nm : NodeMaintenance) (w : World)
      → nm.status.nodes ≡ []
      → (resolve_nodes K nm.spec w).0 ≡ ok (n ∷ names)
      → length (n ∷ names) < 2 ^ 31
      → OnCourse (effective_actions nm.spec) (n ∷ names) (init K nm w).0
  init_course n names nm w empty found few =
      let (_, s) = init-Seeded K nm w (n ∷ names) empty found in
      let v = (init K nm w).2 in
      record {
        run = Runs-of_Seeded K nm (init K nm w).0 n names v s few;
        named = ap node_names s.nodes ∙ names_pending (K.now v) (n ∷ names);
        settled = init_settled K nm w (n ∷ names) (K.now v) empty found s (omega arith) few;
      }

  pub Live-of_Holds :
      (plan : List ActionSpec) (names : List Bytes) (nm : NodeMaintenance)
      → is_terminal nm.status.phase ≡ false
      → Holds plan names nm
      → Live K nm
  Live-of_Holds plan names nm going (inl a) = record {
    going = going;
    resolves = λ fresh v. (init-Seeded K nm v names (nodes_of_is_fresh K nm fresh) (a.found v)).0;
  }
  Live-of_Holds plan names nm going (inr c) = Live-of_run K nm (nonempty c.run.some_node) going

  pub sent-Holds :
      (r : Reconciler K) (plan : List ActionSpec) (n : Bytes) (names : List Bytes)
      (nm : NodeMaintenance) (w : World)
      → AllKeepProgress K r.registry
      → length (n ∷ names) < 2 ^ 31
      → Holds plan (n ∷ names) nm
      → OnCourse plan (n ∷ names) (sent K r nm w).0
  sent-Holds r plan n names nm w keep few (inl a) =
      rw (sent_fresh K r nm w a.fresh, ← a.planned)
        (init_course n names nm w (nodes_of_is_fresh K nm a.fresh) (a.found w) few)
  sent-Holds r plan n names nm w keep few (inr c) =
      rw (sent_run K r nm w (nonempty c.run.some_node))
        (step_course K r.registry plan (n ∷ names) nm (render K r nm w) keep c)
