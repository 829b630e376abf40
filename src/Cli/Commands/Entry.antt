-- ===== src/Cli/Commands/Entry.antt =====
-- internal/cli/attach_run.go: the arguments and the files of `RunPause`, `RunRun` and `RunAttach`.
use kluster_one.Prelude.{
  List, ◌∷◌, ◌++◌, Option, none, some, Result, ok, err, Error, errorf, wrap, Bytes, codes,
  if◌then◌else◌,
}
use kluster_one.Kube.{Kube}
use kluster_one.Cli.Args.{has_help_flag, named_args}
use kluster_one.Cli.Plugin.{Plugin}
use kluster_one.Cli.Commands.{pause, resume, attach}

module _ (K : Kube) (P : Plugin K) where
  open K use {World}
  open P use {usage, read_file}

  -- The three entry points. `parse` is `fs.Parse`: the reason of `pause`, nothing for `run`, and the
  -- number of extra arguments for `attach`, with their text.
  unfoldable pub run_pause :
      (List Bytes → World → Result Bytes × World) → List Bytes → World → Option Error × World
  unfolding has_help_flag named_args
  run_pause parse args w =
      let (r, w') = named_args K parse (codes "pause") args w in
      if has_help_flag args
      then (none, usage (codes "pause") w)
      else elim r [ err e ↦ (some e, w') | ok (name, reason) ↦ pause K P name reason w' ]

  unfoldable pub run_run :
      (List Bytes → World → Result (Unit {0}) × World) → List Bytes → World → Option Error × World
  unfolding has_help_flag named_args
  run_run parse args w =
      let (r, w') = named_args K parse (codes "run") args w in
      if has_help_flag args
      then (none, usage (codes "run") w)
      else elim r [ err e ↦ (some e, w') | ok (name, _) ↦ resume K P name w' ]

  -- `RunAttach` behind its flags.
  attach_file : Bytes → Bytes → World → Option Error × World
  attach_file name path w =
      let (r, w') = read_file path w in
      elim r [
        | err e ↦ (some (wrap (codes "read " ++ path) e), w')
        | ok body ↦ attach K P name body w'
      ]

  attach_args :
      (List Bytes → World → Result (Option Bytes) × World)
      → List Bytes
      → World
      → Option Error × World
  attach_args parse (name ∷ path ∷ rest) w =
      let (r, w') = parse rest w in
      elim r [
        | err e ↦ (some e, w')
        | ok (some extra) ↦ (some (errorf (codes "unexpected extra arguments: " ++ extra)), w')
        | ok none ↦ attach_file name path w'
      ]
  attach_args parse args w =
      (some (errorf (codes "missing positional arguments")), usage (codes "attach") w)

  unfoldable pub run_attach :
      (List Bytes → World → Result (Option Bytes) × World)
      → List Bytes
      → World
      → Option Error × World
  unfolding has_help_flag attach_args attach_file
  run_attach parse args w =
      if has_help_flag args then (none, usage (codes "attach") w) else attach_args parse args w
