-- ===== src/Cli/Copy/Runs.antt =====
-- internal/cli/copy.go with the controller: the resource of push or pull to the end of its run.
use kluster_one.Prelude.{
  ◌+◌, ◌*◌, ◌^◌, ◌<◌, ◌≡◌, refl, ◌∙◌, ap, subst, inl, inr, true, false, List, [], ◌∷◌, Option, none,
  some, ok, Bytes, codes, arith, All, length, Option-cases, Result-cases,
}
use kluster_one.Prelude.Int.{ℤ}
use kluster_one.Prelude.Sorting.{length-sort}
use kluster_one.Prelude.Strings.{join, sort}
use kluster_one.Api.{NodeMaintenance, ActionSpec, script}
use kluster_one.Kube.{Kube}
use kluster_one.Actions.Drain.Clock.{ClockLaws}
use kluster_one.Controller.{is_fresh}
use kluster_one.Controller.Convergence.{reconciles}
use kluster_one.Controller.Retry.{FlakyLaws}
use kluster_one.Controller.Retry.Course.{Finishes}
use kluster_one.Controller.Retry.End.{landings, Spares}
use kluster_one.Manager.Retry.{manager_retries_fresh_end}
use kluster_one.Manager.{Flags, manager_reconciler}
use kluster_one.Orchestrator.{resolve_nodes}
use kluster_one.Orchestrator.Nodes.{effective_actions}
use kluster_one.Cli.Plugin.{Plugin}
use kluster_one.Cli.Create.Applied.{ApplyLaws, Holds, under_name, resolve_nodes-carried}
use kluster_one.Cli.Create.Selector.{IsNodeName}
use kluster_one.Cli.Create.Targets.{csv_names-join}
use kluster_one.Cli.Create.{csv_names}
use kluster_one.Cli.Create.Yaml.{to_unstructured, carried_spec}
use kluster_one.Cli.Copy.{CopyTargets, copy_spec, build_copy_nm, create_copy_nm}

-- A copy is one script.
abbrev pub copy_plan : List ActionSpec
copy_plan = record { type = script; drain_options = none } ∷ []

copied_all :
    (t : CopyTargets) (body : Bytes) (secs : ℤ) → (copy_spec t body secs).all_nodes ≡ t.all_nodes
unfolding copy_spec
copied_all t body secs = refl

copied_names :
    (t : CopyTargets) (body : Bytes) (secs : ℤ)
    → t.all_nodes ≡ false
    → (copy_spec t body secs).node_names ≡ csv_names t.nodes_csv
unfolding copy_spec
copied_names t body secs some_nodes = rw some_nodes refl

built_spec :
    (name body : Bytes) (t : CopyTargets) (secs : ℤ) (extra : List (Bytes × Bytes))
    → (build_copy_nm name t body secs extra).spec ≡ copy_spec t body secs
unfolding build_copy_nm
built_spec name body t secs extra = refl

module _ (K : Kube) (P : Plugin K) (stored : K.World → Bytes → Option NodeMaintenance)
    (laws : ApplyLaws K P stored) where
  open K use {World}
  open P use {create_nm}

  planned_of_copy :
      (t : CopyTargets) (body : Bytes) (secs : ℤ)
      → effective_actions (carried_spec K P (copy_spec t body secs)) ≡ copy_plan
  unfolding effective_actions copy_spec carried_spec
  planned_of_copy t body secs = refl

  create_copy_nm-Holds :
      (name body : Bytes) (t : CopyTargets) (secs : ℤ) (extra : List (Bytes × Bytes)) (w : World)
      → (create_copy_nm K P name body t secs extra w).0 ≡ none
      → Holds K P stored laws
          (build_copy_nm name t body secs extra)
          name
          (create_copy_nm K P name body t secs extra w).1
  unfolding create_copy_nm build_copy_nm
  create_copy_nm-Holds name body t secs extra w fine =
      let nm = build_copy_nm name t body secs extra in
      elim (Result-cases (to_unstructured K P nm)) [
        | inr (e, failing) ↦ absurd (ground (arith, failing))
        | inl (u, sent) ↦ elim (Option-cases (create_nm u w).0) [
          | inr (e, failing) ↦ absurd (ground (arith, sent, failing))
          | inl done ↦
              rw (create_copy_nm, sent, done)
                (under_name K P stored laws nm u _ sent (laws.create_nm_stores u w done))
        ]
      ]

  module _ (clock : ClockLaws K) (flaky : FlakyLaws K stored) where
    -- A copy from the command line to the end of its run. Let push or pull with `--nodes a,b,...` create its
    -- resource without an error, on a server that stores what it acknowledges, and let the stored resource
    -- have its name and no status yet. Reads of the controller may fail or give an old object, the server may
    -- refuse updates of the status, and in between anything may happen that keeps the stored status, targets
    -- and planned actions. Once more passes have read the resource and stored their update than three for each
    -- of the names and one, the stored resource is Completed or Failed, with one status for each of the names,
    -- sorted; each of these nodes is Completed, after the script, or Failed. So it is whatever the flags of the
    -- manager and however the cluster answers, as long as the clock runs.
    pub copy_retries_end :
        (flags : Flags) (name body : Bytes) (t : CopyTargets) (secs : ℤ)
        (extra : List (Bytes × Bytes)) (w : World) (n : Bytes) (ns : List Bytes)
        (changes : List (World → World))
        → t.all_nodes ≡ false
        → t.nodes_csv ≡ join (n ∷ ns) (codes ",")
        → All IsNodeName (n ∷ ns)
        → (create_copy_nm K P name body t secs extra w).0 ≡ none
        → let w' = (create_copy_nm K P name body t secs extra w).1 in
          ((nm : NodeMaintenance)
            → stored w' name ≡ some nm
            → (nm.meta.name ≡ name) × (is_fresh nm ≡ true))
          → All (Spares K stored name) changes
          → length (n ∷ ns) < 2 ^ 31
          → let r = manager_reconciler K clock flags in
            length (n ∷ ns) * 3 + 1 < landings K r name changes w'
            → Finishes K stored name copy_plan (sort (n ∷ ns)) (reconciles K r name changes w')
    copy_retries_end flags name body t secs extra w n ns changes some_nodes listed names fine known
          still few enough =
        let (nm, there, wish) = create_copy_nm-Holds name body t secs extra w fine in
        let (_, fresh) = known nm there in
        let c = copy_spec t body secs in
        let spec : nm.spec ≡ carried_spec K P c =
          wish.spec ∙ ap (carried_spec K P) (built_spec name body t secs extra) in
        let planned = ap effective_actions spec ∙ planned_of_copy t body secs in
        let all = copied_all t body secs ∙ some_nodes in
        let same =
          copied_names t body secs some_nodes ∙ ap csv_names listed ∙ csv_names-join n ns names in
        let found : (v : World) → (resolve_nodes K nm.spec v).0 ≡ ok (sort (n ∷ ns)) =
          λ v. resolve_nodes-carried K P stored laws c nm.spec n ns v spec all same names in
        let count = length-sort (n ∷ ns) in
        let w' = (create_copy_nm K P name body t secs extra w).1 in
        let r = manager_reconciler K clock flags in
        let most : length (sort (n ∷ ns)) * (length (effective_actions nm.spec) + 2) + 1
            < landings K r name changes w' =
          rw (count, planned) enough in
        subst (λ p. Finishes K stored name p (sort (n ∷ ns)) (reconciles K r name changes w'))
          planned
          (manager_retries_fresh_end K clock stored flaky flags name changes w' nm (sort (n ∷ ns))
            still there fresh found (rw count (omega arith)) (rw count few) most)
