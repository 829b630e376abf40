-- ===== src/Cli/Create/Runs.antt =====
-- internal/cli/create.go with the controller: a resource from the command line to the end of its run.
use kluster_one.Prelude.{
  Option, ℕ, zero, suc, ◌+◌, ◌*◌, ◌^◌, ◌≤◌, ◌<◌, ◌≡◌, refl, ◌∙◌, ap, subst, true, false, ◌||◌, List,
  ◌∷◌, none, some, ok, Bytes, codes, arith, All, length,
}
use kluster_one.Prelude.Sorting.{length-sort}
use kluster_one.Prelude.Strings.{join, sort}
use kluster_one.Api.{NodeMaintenance, is_terminal}
use kluster_one.Kube.{Kube}
use kluster_one.Actions.Drain.Clock.{ClockLaws}
use kluster_one.Controller.{is_fresh}
use kluster_one.Controller.Convergence.{ResourceLaws, Leaves, reconciles}
use kluster_one.Controller.Retry.{FlakyLaws}
use kluster_one.Controller.Retry.End.{landings, Spares}
use kluster_one.Controller.Retry.Course.{Finishes}
use kluster_one.Manager.Retry.{manager_retries_fresh_end}
use kluster_one.Manager.{Flags, manager_reconciler, manager_reconciles_fresh_end}
use kluster_one.Orchestrator.{resolve_nodes}
use kluster_one.Orchestrator.Nodes.{effective_actions}
use kluster_one.Cli.Plugin.{Plugin}
use kluster_one.Cli.Create.{CreateFlags, csv_names, build_spec, build_nm, build_actions, overridden}
use kluster_one.Cli.Create.Applied.{ApplyLaws, create_carries, resolve_nodes-carried}
use kluster_one.Cli.Create.Apply.{create}
use kluster_one.Cli.Create.Selector.{IsNodeName}
use kluster_one.Cli.Create.Targets.{built_all, built_names, csv_names-join}
use kluster_one.Cli.Create.Yaml.{carried_spec}

plan_size : (f : CreateFlags) → length (build_actions f) ≤ 4
unfolding build_actions
plan_size f = ground arith

spec_of_built :
    (name body : Bytes) (f : CreateFlags) → (build_nm name body f).spec ≡ build_spec body f
unfolding build_nm
spec_of_built name body f = refl

overridden_keeps :
    (f : CreateFlags)
    → ((overridden f).paused ≡ f.paused)
      × ((overridden f).all_nodes ≡ f.all_nodes)
      × ((overridden f).nodes ≡ f.nodes)
unfolding overridden
overridden_keeps f = (refl, refl, refl)

passes_le : (m p : ℕ) → p ≤ 4 → m * (p + 2) ≤ m * 6
passes_le zero p small = omega arith
passes_le (suc m) p small = omega (arith, passes_le m p small)

passes : (m p c : ℕ) → p ≤ 4 → m * 6 < c → m * (p + 2) < c
passes m p c small enough = omega (arith, passes_le m p small)

module _ (K : Kube) (P : Plugin K) (stored : K.World → Bytes → Option NodeMaintenance)
    (laws : ApplyLaws K P stored) where
  open K use {World}

  planned_of_built :
      (body : Bytes) (f : CreateFlags)
      → effective_actions (carried_spec K P (build_spec body f)) ≡ build_actions f
  unfolding effective_actions build_spec build_actions carried_spec
  planned_of_built body f = ground arith

  built_paused :
      (body : Bytes) (f : CreateFlags) → (carried_spec K P (build_spec body f)).paused ≡ f.paused
  unfolding build_spec carried_spec
  built_paused body f = refl

  -- What the controller finds after `create --nodes a,b,...`: the resource with its name and no
  -- status yet, whose targets are the names, and the plan of the flags.
  pub record Ready (name : Bytes) (f : CreateFlags) (names : List Bytes) (w : World)
      (nm : NodeMaintenance) : Type 0 where
    pub here : stored w name ≡ some nm
    pub named : nm.meta.name ≡ name
    pub fresh : is_fresh nm ≡ true
    pub paused : nm.spec.paused ≡ f.paused
    pub found : (v : World) → (resolve_nodes K nm.spec v).0 ≡ ok (sort names)
    pub planned : effective_actions nm.spec ≡ build_actions (overridden f)

  pub create-Ready :
      (name : Bytes) (f : CreateFlags) (w : World) (n : Bytes) (ns : List Bytes)
      → (f.dry_run || f.output_yaml) ≡ false
      → f.all_nodes ≡ false
      → f.nodes ≡ join (n ∷ ns) (codes ",")
      → All IsNodeName (n ∷ ns)
      → (create K P name f w).0 ≡ none
      → let w' = (create K P name f w).1 in
        ((nm : NodeMaintenance)
          → stored w' name ≡ some nm
          → (nm.meta.name ≡ name) × (is_fresh nm ≡ true))
        → (nm : NodeMaintenance) × Ready name f (n ∷ ns) w' nm
  create-Ready name f w n ns real some_nodes listed names fine known =
      let (_, body, _, _, (nm, there, wish)) = create_carries K P stored laws name f w real fine in
      let g = overridden f in
      let (same_paused, same_all, same_nodes) = overridden_keeps f in
      let (named, fresh) = known nm there in
      let spec : nm.spec ≡ carried_spec K P (build_spec body g) =
        wish.spec ∙ ap (carried_spec K P) (spec_of_built name body g) in
      let all = built_all body g ∙ same_all ∙ some_nodes in
      let named_nodes =
        built_names body g (same_all ∙ some_nodes)
        ∙ ap csv_names (same_nodes ∙ listed)
        ∙ csv_names-join n ns names in
      (
        nm,
        record {
          here = there;
          named = named;
          fresh = fresh;
          paused = ap (λ s. s.paused) spec ∙ built_paused body g ∙ same_paused;
          found = λ v.
              resolve_nodes-carried K P stored laws (build_spec body g) nm.spec n ns v spec all
                named_nodes names;
          planned = ap effective_actions spec ∙ planned_of_built body g;
        },
      )

  module _ (clock : ClockLaws K) (flaky : FlakyLaws K stored) where
    -- From the command line to the end of the run, also if passes of the controller fail. Let `create
    -- --nodes a,b,...`, no dry run, return without an error, on a server that stores what it acknowledges,
    -- and let the stored resource have its name and no status yet. Then reads of the controller may fail or
    -- give an old object, the server may refuse updates of the status, and in between anything may happen that
    -- keeps the stored status, targets and planned actions: a user may pause and resume the run. Once more
    -- passes have read the resource and stored their update than there are names times two more than the
    -- actions of the flags, and one, the stored resource is Completed or Failed. It has one status for each of
    -- the names, sorted; each of these nodes is Completed or Failed, has completed a first part of the actions
    -- of the flags in order, and all of them if it is Completed. So it is whatever the other flags of both
    -- programs and however the cluster answers, as long as the clock runs.
    pub create_retries_end :
        (flags : Flags) (name : Bytes) (f : CreateFlags) (w : World) (n : Bytes) (ns : List Bytes)
        (changes : List (World → World))
        → (f.dry_run || f.output_yaml) ≡ false
        → f.all_nodes ≡ false
        → f.nodes ≡ join (n ∷ ns) (codes ",")
        → All IsNodeName (n ∷ ns)
        → (create K P name f w).0 ≡ none
        → let w' = (create K P name f w).1 in
          ((nm : NodeMaintenance)
            → stored w' name ≡ some nm
            → (nm.meta.name ≡ name) × (is_fresh nm ≡ true))
          → All (Spares K stored name) changes
          → length (n ∷ ns) < 2 ^ 31
          → let r = manager_reconciler K clock flags in
            let plan = build_actions (overridden f) in
            length (n ∷ ns) * (length plan + 2) + 1 < landings K r name changes w'
            → Finishes K stored name plan (sort (n ∷ ns)) (reconciles K r name changes w')
    create_retries_end flags name f w n ns changes real some_nodes listed names fine known still few
          enough =
        let (nm, s) = create-Ready name f w n ns real some_nodes listed names fine known in
        let count = length-sort (n ∷ ns) in
        let w' = (create K P name f w).1 in
        let r = manager_reconciler K clock flags in
        let most : length (sort (n ∷ ns)) * (length (effective_actions nm.spec) + 2) + 1
            < landings K r name changes w' =
          rw (count, s.planned) enough in
        subst (λ p. Finishes K stored name p (sort (n ∷ ns)) (reconciles K r name changes w'))
          s.planned
          (manager_retries_fresh_end K clock stored flaky flags name changes w' nm (sort (n ∷ ns))
            still s.here s.fresh s.found (rw count (omega arith)) (rw count few) most)

module _ (K : Kube) (P : Plugin K) (clock : ClockLaws K) (resource : ResourceLaws K)
    (laws : ApplyLaws K P resource.stored)
    (no_conflict : (nm : NodeMaintenance) (w : K.World) → (K.update_status nm w).0 ≡ none) where
  open K use {World}
  open resource use {stored}

  -- From the command line to the end of the run. Let `create --nodes a,b,...`, not paused and no dry run,
  -- return without an error, on a server that stores what it acknowledges, and let the stored resource have
  -- its name and no status yet. If every update of the status succeeds, nobody else changes the resource and
  -- the clock runs, then the controller of the manager, by one pass more than six for each of the names and
  -- one, brings the resource to Completed or Failed, whatever the other flags of both programs, whatever the
  -- cluster does in between and however it answers.
  pub create_reconciles_end :
      (flags : Flags) (name : Bytes) (f : CreateFlags) (w : World) (n : Bytes) (ns : List Bytes)
      (change : World → World) (changes : List (World → World))
      → (f.dry_run || f.output_yaml) ≡ false
      → f.paused ≡ false
      → f.all_nodes ≡ false
      → f.nodes ≡ join (n ∷ ns) (codes ",")
      → All IsNodeName (n ∷ ns)
      → (create K P name f w).0 ≡ none
      → let w' = (create K P name f w).1 in
        ((nm : NodeMaintenance)
          → stored w' name ≡ some nm
          → (nm.meta.name ≡ name) × (is_fresh nm ≡ true))
        → All (Leaves K resource no_conflict name) (change ∷ changes)
        → length (n ∷ ns) < 2 ^ 31
        → length (n ∷ ns) * 6 < length changes
        → (end : NodeMaintenance) × (stored
              (reconciles K (manager_reconciler K clock flags) name (change ∷ changes) w')
              name
            ≡ some end)
          × (is_terminal end.status.phase ≡ true)
  create_reconciles_end flags name f w n ns change changes real active some_nodes listed names fine
        known still few enough =
      let (nm, s) =
        create-Ready K P stored laws name f w n ns real some_nodes listed names fine known in
      let count = length-sort (n ∷ ns) in
      manager_reconciles_fresh_end K clock resource no_conflict flags name change changes
        (create K P name f w).1 nm (sort (n ∷ ns)) still s.here s.named s.fresh (s.paused ∙ active)
        (s.found (K.get_nm name (change (create K P name f w).1)).1) (rw count few)
        (rw count (
          passes (length (n ∷ ns)) _ (length changes) (rw s.planned (plan_size (overridden f)))
            enough))
