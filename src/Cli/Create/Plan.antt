-- ===== src/Cli/Create/Plan.antt =====
-- internal/cli/create.go: the actions that `buildNM` lists, against the orchestrator's plan.
use kluster_one.Prelude.{◌≡◌, ◌↔◌, Bool, true, not, ◌&&◌, [], Bytes, arith}
use kluster_one.Orchestrator.Nodes.{effective_actions}
use kluster_one.Cli.Create.{CreateFlags, build_spec, build_actions, overridden}

-- Cordon and Uncordon are on, and Drain is off.
abbrev pub is_default_plan : CreateFlags → Bool
is_default_plan f =
    (f.include_cordon && not f.no_cordon)
    && ((f.include_uncord && not f.no_uncord) && not f.include_drain)

-- The plan of a created resource is the one that the orchestrator makes up for a resource with a script
-- and no actions, exactly if the flags ask for Cordon and Uncordon and not for Drain, as they do by
-- default.
pub effective_actions-build_spec :
    (body : Bytes) (f : CreateFlags)
    → let spec = build_spec body (overridden f) in
      (effective_actions spec ≡ effective_actions (record spec { actions = [] }))
      ↔ (is_default_plan f ≡ true)
unfolding build_spec build_actions overridden effective_actions
effective_actions-build_spec body f = ground arith
