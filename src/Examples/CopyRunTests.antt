-- ===== src/Examples/CopyRunTests.antt =====
-- A copy on the small cluster, from the creation of its resource on.
use kluster_one.Prelude.{◌≡◌, ◌≤◌, refl, sym, false, true, [], ◌∷◌, none, some, codes, arith, All}
use kluster_one.Prelude.Int.{pos}
use kluster_one.Prelude.Strings.{bytes_eq, join, sort}
use kluster_one.Api.{NodeMaintenance}
use kluster_one.Controller.{is_fresh}
use kluster_one.Controller.Convergence.{reconciles}
use kluster_one.Controller.Retry.Course.{Finishes}
use kluster_one.Controller.Retry.End.{landings}
use kluster_one.Manager.{manager_reconciler}
use kluster_one.Manager.Retry.{manager_keeps}
use kluster_one.Cli.Create.Selector.{IsNodeName}
use kluster_one.Cli.Create.Yaml.{to_unstructured}
use kluster_one.Cli.Copy.{CopyTargets, build_copy_nm, create_copy_nm}
use kluster_one.Cli.Copy.Runs.{copy_plan, copy_retries_end}
use kluster_one.Examples.Cluster.{Cluster, toy, toy_clock, toy_resource}
use kluster_one.Examples.Calm.{
  calm_laws, all_free, all_free-Announced, resumptions, resumptions-Spares,
}
use kluster_one.Examples.Fixtures.{fresh, cluster, flags, name_a, name_b}
use kluster_one.Examples.Landings.{landings_count}
use kluster_one.Examples.Terminal.{terminal, terminal_apply}

abbrev both : CopyTargets
both = record { all_nodes = false; selector = []; nodes_csv = codes "node-b,node-a" }

abbrev copied : Cluster
copied = (create_copy_nm toy terminal fresh.meta.name (codes "ls") both (pos 60) [] cluster).1

copied_fine :
    (create_copy_nm toy terminal fresh.meta.name (codes "ls") both (pos 60) [] cluster).0 ≡ none
unfolding create_copy_nm bytes_eq build_copy_nm to_unstructured
copied_fine = refl

abbrev built : NodeMaintenance
built = build_copy_nm fresh.meta.name both (codes "ls") (pos 60) []

built_stored : toy_resource.stored copied fresh.meta.name ≡ some built
unfolding create_copy_nm bytes_eq build_copy_nm to_unstructured
built_stored = refl

built_known : (built.meta.name ≡ fresh.meta.name) × (is_fresh built ≡ true)
unfolding build_copy_nm is_fresh
built_known = (refl, refl)

copied_known :
    (nm : NodeMaintenance)
    → toy_resource.stored copied fresh.meta.name ≡ some nm
    → (nm.meta.name ≡ fresh.meta.name) × (is_fresh nm ≡ true)
copied_known nm h =
    let same : built ≡ nm = ground (arith, built_stored, h) in rw (sym same) built_known

both-IsNodeName : All IsNodeName (name_b ∷ name_a ∷ [])
both-IsNodeName = ground arith

copied_landed :
    8 ≤ landings toy (manager_reconciler toy toy_clock flags) fresh.meta.name (resumptions 8) copied
copied_landed =
    landings_count toy toy_resource.stored calm_laws fresh.meta.name
      (manager_reconciler toy toy_clock flags)
      (manager_keeps toy toy_clock toy_resource.stored calm_laws flags fresh.meta.name)
      (λ w nm here. (toy_resource.get_nm_stored fresh.meta.name w nm here).0) (λ nm w h. refl)
      (all_free 8) copied built (all_free-Announced 8) built_stored

copy_retries_end_example :
    Finishes toy toy_resource.stored fresh.meta.name copy_plan (sort (name_b ∷ name_a ∷ [])) (
      reconciles toy
        (manager_reconciler toy toy_clock flags)
        fresh.meta.name
        (resumptions 8)
        copied)
unfolding join
copy_retries_end_example =
    copy_retries_end toy terminal toy_resource.stored terminal_apply toy_clock calm_laws flags
      fresh.meta.name (codes "ls") both (pos 60) [] cluster name_b (name_a ∷ []) (resumptions 8)
      refl refl both-IsNodeName copied_fine copied_known (resumptions-Spares 8) (omega arith)
      (omega (arith, copied_landed))
