-- ===== src/Examples/EndTests.antt =====
-- Whole runs on the small cluster, from the creation of the resource on.
use kluster_one.Prelude.{◌≡◌, ◌≤◌, refl, sym, true, [], ◌∷◌, none, some, codes, arith, All}
use kluster_one.Controller.Retry.End.{landings}
use kluster_one.Controller.Retry.Course.{Finishes}
use kluster_one.Manager.Retry.{manager_keeps}
use kluster_one.Examples.Landings.{landings_count}
use kluster_one.Prelude.Strings.{bytes_eq, join, sort}
use kluster_one.Api.{NodeMaintenance}
use kluster_one.Controller.{is_fresh}
use kluster_one.Controller.Convergence.{reconciles}
use kluster_one.Manager.{manager_reconciler}
use kluster_one.Cli.Create.{CreateFlags, build_nm, build_actions, flags_error, overridden}
use kluster_one.Cli.Clients.{new_clients}
use kluster_one.Cli.Create.Yaml.{to_unstructured}
use kluster_one.Cli.Create.Apply.{
  script_body, applied, apply_nm, create_hint, create_nm_now, create_body, create,
}
use kluster_one.Cli.Create.Runs.{create_retries_end}
use kluster_one.Cli.Create.Selector.{IsNodeName}
use kluster_one.Examples.Cluster.{Cluster, toy, toy_clock, toy_resource}
use kluster_one.Examples.Fixtures.{fresh, cluster, flags, name_a, name_b, defaults}
use kluster_one.Examples.Terminal.{terminal, terminal_apply}
use kluster_one.Examples.Calm.{
  calm_laws, all_free, all_free-Announced, resumptions, resumptions-Spares,
}

-- `create --paused`, whose run a user resumes.
abbrev listed : CreateFlags
listed = record defaults { nodes = codes "node-b,node-a"; paused = true }

abbrev created : Cluster
created = (create toy terminal fresh.meta.name listed cluster).1

create_fine : (create toy terminal fresh.meta.name listed cluster).0 ≡ none
unfolding create flags_error overridden script_body create_body create_nm_now apply_nm applied
    create_hint bytes_eq build_nm new_clients to_unstructured
create_fine = refl

abbrev built : NodeMaintenance
built = build_nm fresh.meta.name (codes "uname -r") (overridden listed)

built_stored : toy_resource.stored created fresh.meta.name ≡ some built
unfolding create flags_error overridden script_body create_body create_nm_now apply_nm applied
    create_hint bytes_eq build_nm new_clients to_unstructured
built_stored = refl

built_known : (built.meta.name ≡ fresh.meta.name) × (is_fresh built ≡ true)
unfolding build_nm is_fresh
built_known = (refl, refl)

created_known :
    (nm : NodeMaintenance)
    → toy_resource.stored created fresh.meta.name ≡ some nm
    → (nm.meta.name ≡ fresh.meta.name) × (is_fresh nm ≡ true)
created_known nm h =
    let same : built ≡ nm = ground (arith, built_stored, h) in rw (sym same) built_known

listed-IsNodeName : All IsNodeName (name_b ∷ name_a ∷ [])
listed-IsNodeName = ground arith

all_landed :
    14
    ≤ landings toy (manager_reconciler toy toy_clock flags) fresh.meta.name (resumptions 14) created
all_landed =
    landings_count toy toy_resource.stored calm_laws fresh.meta.name
      (manager_reconciler toy toy_clock flags)
      (manager_keeps toy toy_clock toy_resource.stored calm_laws flags fresh.meta.name)
      (λ w nm here. (toy_resource.get_nm_stored fresh.meta.name w nm here).0) (λ nm w h. refl)
      (all_free 14) created built (all_free-Announced 14) built_stored

create_retries_end_example :
    Finishes toy toy_resource.stored fresh.meta.name
      (build_actions (overridden listed))
      (sort (name_b ∷ name_a ∷ []))
      (reconciles toy
        (manager_reconciler toy toy_clock flags)
        fresh.meta.name
        (resumptions 14)
        created)
unfolding join build_actions overridden
create_retries_end_example =
    create_retries_end toy terminal toy_resource.stored terminal_apply toy_clock calm_laws flags
      fresh.meta.name listed cluster name_b (name_a ∷ []) (resumptions 14) refl refl refl
      listed-IsNodeName create_fine created_known (resumptions-Spares 14) (omega arith)
      (omega (arith, all_landed))
