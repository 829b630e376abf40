-- ===== src/Cli/Create/Apply.antt =====
-- internal/cli/create.go: `RunCreate` and `applyNM`.
use kluster_one.Prelude.{
  Bool, ◌&&◌, ◌||◌, List, ◌++◌, Option, none, some, Result, ok, err, Error, wrap, Bytes, codes, ltb,
  if◌then◌else◌, length, is_not_found,
}
use kluster_one.Api.{NodeMaintenance}
use kluster_one.Kube.{Kube}
use kluster_one.Cli.Args.{is_empty, has_help_flag, split_positional}
use kluster_one.Cli.Clients.{new_clients}
use kluster_one.Cli.Create.Yaml.{to_unstructured, write_yaml}
use kluster_one.Cli.Plugin.{Plugin}
use kluster_one.Cli.Commands.{max_inline_script_bytes, too_large, resource_line}
use kluster_one.Cli.Create.{CreateFlags, build_nm, flags_error, overridden}

module _ (K : Kube) (P : Plugin K) where
  open K use {World, get_nm}
  open P use {print, usage, read_file, create_nm, update_nm}

  unfoldable pub script_body : CreateFlags → World → Result Bytes × World
  script_body f w =
      let (r, w') = read_file f.script_path w in
      if is_empty f.script_path
      then (ok f.inline, w)
      else elim r [ ok b ↦ (ok b, w') | err e ↦ (err (wrap (codes "read --script") e), w') ]

  -- The answer of the create or update call.
  unfoldable pub applied : Bytes → Bytes → Bytes → Option Error × World → Option Error × World
  applied name verb done (e, w) = elim e [
    | some e ↦ (some (wrap (verb ++ codes " NodeMaintenance") e), w)
    | none ↦ (none, print (resource_line name done) w)
  ]

  unfoldable pub apply_nm : NodeMaintenance → World → Option Error × World
  unfolding applied
  apply_nm nm w =
      let name = nm.meta.name in
      let (r, w') = get_nm name w in
      elim (to_unstructured K P nm) [
        | err e ↦ (some e, w)
        | ok u ↦ elim r [
          | ok existing ↦ applied name (codes "update") (codes "updated") (update_nm existing u w')
          | err e ↦
              if is_not_found e
              then applied name (codes "create") (codes "created") (create_nm u w')
              else (some (wrap (codes "get NodeMaintenance") e), w')
        ]
      ]

  -- The hint behind a paused creation.
  unfoldable pub create_hint : Bytes → Bytes → Bool → World → World
  create_hint name body paused w =
      if paused && is_empty body
      then print (codes "        kubectl nm run    " ++ (name ++ codes "\n"))
          (print (codes "  next: kubectl nm attach " ++ (name ++ codes " <script-path>\n")) w)
      else if paused
      then print (codes "  next: kubectl nm run " ++ (name ++ codes "   # NM is paused\n")) w
      else w

  -- The application of the resource, behind the dry run.
  unfoldable pub create_nm_now : Bytes → Bytes → CreateFlags → World → Option Error × World
  unfolding create_hint
  create_nm_now name body f w =
      let (e, w₁) = new_clients K P w in
      let (e', w₂) = apply_nm (build_nm name body f) w₁ in
      elim e [
        | some e ↦ (some e, w₁)
        | none ↦ elim e' [
          | some e ↦ (some e, w₂)
          | none ↦ (none, create_hint name body f.paused w₂)
        ]
      ]

  unfoldable pub create_body : Bytes → Bytes → CreateFlags → World → Option Error × World
  create_body name body f w =
      if ltb max_inline_script_bytes (length body)
      then (some (too_large body), w)
      else if f.dry_run || f.output_yaml
      then write_yaml K P (build_nm name body f) w
      else create_nm_now name body f w

  -- `RunCreate` behind the parsing.
  unfoldable pub create : Bytes → CreateFlags → World → Option Error × World
  unfolding flags_error overridden script_body
  create name f w =
      let (r, w') = script_body f w in
      elim (flags_error f) [
        | some e ↦ (some e, w)
        | none ↦ elim r [ err e ↦ (some e, w') | ok body ↦ create_body name body (overridden f) w' ]
      ]

  -- `parse` is `fs.Parse` on the flags of `create`.
  unfoldable pub run_create :
      (List Bytes → World → Result CreateFlags × World) → List Bytes → World → Option Error × World
  run_create parse args w =
      if has_help_flag args
      then (none, usage (codes "create") w)
      else elim (split_positional args (codes "create") (codes "<name>")) [
        | err e ↦ (some e, usage (codes "create") w)
        | ok (name, rest) ↦
            let (r, w') = parse rest w in elim r [ err e ↦ (some e, w') | ok f ↦ create name f w' ]
      ]
