-- ===== src/Examples/CopyTests.antt =====
-- Creations and copies on the small cluster.
use kluster_one.Prelude.{
  some, ◌≡◌, refl, ◌↔◌, inl, inr, true, false, [], ◌∷◌, none, ok, Bytes, codes, ltb, length, arith,
  All, List,
}
use kluster_one.Prelude.Int.{pos, ltb_ℤ}
use kluster_one.Api.Schema.{IsAdmitted}
use kluster_one.Cli.Create.Admitted.{build_nm-IsAdmitted}
use kluster_one.Prelude.Split.{split}
use kluster_one.Prelude.Strings.{bytes_eq, lookup, join}
use kluster_one.Prelude.Spaces.{trim_space, trim_front, space_front, space_back}
use kluster_one.Api.{completed}
use kluster_one.Api.{NodeMaintenance}
use kluster_one.Kube.{from_set}
use kluster_one.Orchestrator.{resolve_nodes, list_all_nodes, init}
use kluster_one.Orchestrator.Nodes.{effective_actions}
use kluster_one.Cli.Commands.{max_inline_script_bytes}
use kluster_one.Cli.Copy.{CopyTargets, PushFlags, copy_spec, build_copy_nm}
use kluster_one.Cli.Copy.Ends.{EndsWell}
use kluster_one.Cli.Copy.Ends.Push.{push-EndsWell}
use kluster_one.Cli.Copy.Ends.Pull.{pull-EndsWell}
use kluster_one.Cli.Args.{has_help_flag}
use kluster_one.Cli.Main.{Parsers, main}
use kluster_one.Cli.Main.Exits.{ExitsRight, main_copy_exits}
use kluster_one.Cli.Copy.Pull.{pull}
use kluster_one.Cli.Copy.Push.{push}
use kluster_one.Cli.Copy.Targets.{targets_of, resolve_nodes-copy_spec, init-build_copy_nm_blank}
use kluster_one.Cli.Create.Applied.{SameWish, create_stores}
use kluster_one.Cli.Clients.{new_clients}
use kluster_one.Cli.Create.Yaml.{to_unstructured}
use kluster_one.Cli.Create.Apply.{
  script_body, applied, apply_nm, create_hint, create_nm_now, create_body, create,
}
use kluster_one.Cli.Create.Plan.{is_default_plan, effective_actions-build_spec}
use kluster_one.Cli.Create.Selector.{IsNodeName, IsPair}
use kluster_one.Cli.Create.Targets.{resolve_nodes-parse_selector}
use kluster_one.Cli.Create.{
  CreateFlags, build_nm, build_spec, overridden, flags_error, csv_names, trimmed_names,
}
use kluster_one.Examples.Cluster.{toy_resource, toy, toy_clock}
use kluster_one.Examples.Fixtures.{cluster, name_a, name_b, pull_flags, defaults}
use kluster_one.Examples.Terminal.{carried_same, terminal, terminal_apply}

effective_actions-build_spec_example :
    let spec = build_spec (codes "uname -r") (overridden defaults) in
    (effective_actions spec ≡ effective_actions (record spec { actions = [] }))
    ↔ (is_default_plan defaults ≡ true)
effective_actions-build_spec_example = effective_actions-build_spec (codes "uname -r") defaults

abbrev listed : CreateFlags
listed = record defaults { nodes = codes "node-b,node-a" }

listed-IsNodeName : All IsNodeName (name_b ∷ name_a ∷ [])
listed-IsNodeName = ground arith

abbrev pair_a : Bytes × Bytes
pair_a = (codes "role", codes "db")

abbrev pair_b : Bytes × Bytes
pair_b = (codes "z", [])

abbrev selected : CreateFlags
selected = record defaults { selector = codes "role=db,z=" }

selected-IsPair : All IsPair (pair_a ∷ pair_b ∷ [])
selected-IsPair = ground arith

resolve_nodes-parse_selector_example :
    resolve_nodes toy (build_spec [] selected) cluster
    ≡ list_all_nodes toy (from_set (pair_a ∷ pair_b ∷ [])) cluster
unfolding join lookup bytes_eq
resolve_nodes-parse_selector_example =
    resolve_nodes-parse_selector toy [] selected pair_a (pair_b ∷ []) cluster refl refl refl
      selected-IsPair (refl, (refl, tt))

create_fine : (create toy terminal (codes "patch") defaults cluster).0 ≡ none
unfolding create flags_error overridden script_body create_body create_nm_now apply_nm applied
    create_hint bytes_eq build_nm new_clients to_unstructured
create_fine = refl

create_stores_example :
    (flags_error defaults ≡ none)
    × (body : Bytes) × ((script_body toy terminal defaults cluster).0 ≡ ok body)
    × (ltb max_inline_script_bytes (length body) ≡ false)
    × (nm : NodeMaintenance) × (toy_resource.stored
          (create toy terminal (codes "patch") defaults cluster).1
          (codes "patch")
        ≡ some nm)
    × SameWish (build_nm (codes "patch") body (overridden defaults)) nm
create_stores_example =
    create_stores toy terminal toy_resource.stored terminal_apply (codes "patch") defaults cluster
      refl create_fine
      (λ body loaded. record {
        spec = carried_same (build_nm (codes "patch") body (overridden defaults)).spec;
        annotations = refl;
      })

resolve_nodes-copy_spec_example :
    resolve_nodes toy (copy_spec (targets_of selected) (codes "ls") (pos 60)) cluster
    ≡ resolve_nodes toy (build_spec (codes "id") selected) cluster
resolve_nodes-copy_spec_example =
    resolve_nodes-copy_spec toy selected (codes "ls") (codes "id") (pos 60) cluster (inr (inl refl))

abbrev blank : CopyTargets
blank = record { all_nodes = false; selector = codes "role=db"; nodes_csv = codes " , " }

blank_unnamed : csv_names blank.nodes_csv ≡ []
unfolding csv_names trimmed_names split trim_space trim_front space_front space_back
blank_unnamed = refl

init-build_copy_nm_blank_example :
    let nm = (init toy (build_copy_nm (codes "copy") blank (codes "ls") (pos 60) []) cluster).0 in
    (nm.status.phase ≡ completed) × (nm.status.nodes ≡ [])
init-build_copy_nm_blank_example =
    init-build_copy_nm_blank toy (codes "copy") blank (codes "ls") (pos 60) [] cluster refl refl
      blank_unnamed

abbrev push_flags : PushFlags
push_flags = record {
  targets = record { all_nodes = true; selector = []; nodes_csv = [] };
  mode = [];
  keep = false;
  timeout = pos 60000000000;
  nm_name = codes "copy";
}

push-EndsWell_example :
    EndsWell toy terminal toy_clock
      (codes "copy")
      (push toy terminal (codes "motd") (codes "/etc/motd") push_flags cluster)
push-EndsWell_example =
    push-EndsWell toy terminal toy_clock (codes "motd") (codes "/etc/motd") push_flags cluster

pull-EndsWell_example :
    EndsWell toy terminal toy_clock
      (codes "copy")
      (pull toy terminal (codes "/etc/motd") (codes "motd") pull_flags cluster)
pull-EndsWell_example =
    pull-EndsWell toy terminal toy_clock (codes "/etc/motd") (codes "motd") pull_flags cluster

abbrev parsers : Parsers toy
parsers = record {
  create = λ args w. (ok defaults, w);
  attach = λ args w. (ok none, w);
  pause = λ args w. (ok [], w);
  plain = λ args w. (ok tt, w);
  logs = λ args w. (ok (record { node = []; follow = false }), w);
  push = λ args w. (ok push_flags, w);
  pull = λ args w. (ok pull_flags, w);
}

abbrev push_args : List Bytes
push_args = codes "motd" ∷ codes "/etc/motd" ∷ []

unasked : has_help_flag push_args ≡ false
unfolding has_help_flag bytes_eq
unasked = refl

main_copy_exits_example :
    ExitsRight toy terminal toy_clock (main toy terminal parsers (codes "push" ∷ push_args) cluster)
main_copy_exits_example =
    main_copy_exits toy terminal toy_clock parsers (codes "push") push_args cluster (inl refl)
      unasked

build_nm-IsAdmitted_example :
    IsAdmitted (build_nm (codes "patch") (codes "ls") defaults)
    ↔ (ltb_ℤ defaults.max_unavailable (pos 0) ≡ false)
build_nm-IsAdmitted_example = build_nm-IsAdmitted (codes "patch") (codes "ls") defaults
