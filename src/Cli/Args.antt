-- ===== src/Cli/Args.antt =====
-- internal/cli/argparse.go and internal/cli/clients.go: the arguments of a subcommand, and the namespace.
use kluster_one.Prelude.{
  Bool, true, false, ◌||◌, List, [], ◌∷◌, ◌++◌, Result, ok, err, errorf, Bytes, codes,
  if◌then◌else◌,
}
use kluster_one.Prelude.Strings.{bytes_eq}
use kluster_one.Kube.{Kube}
use kluster_one.Cli.Payload.{has_prefix}

abbrev pub is_empty : Bytes → Bool
is_empty [] = true
is_empty (c ∷ s) = false

unfoldable pub split_positional : List Bytes → Bytes → Bytes → Result (Bytes × List Bytes)
unfolding has_prefix
split_positional [] subcmd pos_usage = err (
    errorf
      (codes "usage: kubectl nm " ++ (subcmd ++ (codes " " ++ (pos_usage ++ codes " [flags]")))))
split_positional (a ∷ args) subcmd pos_usage =
    if has_prefix a (codes "-")
    then err (
        errorf (
          codes "usage: kubectl nm "
          ++ (subcmd
              ++ (codes " "
                  ++ (pos_usage ++ codes " [flags] (positional argument must come first)")))))
    else ok (a, args)

unfoldable pub has_help_flag : List Bytes → Bool
unfolding bytes_eq
has_help_flag [] = false
has_help_flag (a ∷ args) =
    bytes_eq a (codes "-h")
    || bytes_eq a (codes "--help")
    || bytes_eq a (codes "help")
    || has_help_flag args

-- `RunnerNamespace`
abbrev pub runner_ns : Bytes
runner_ns = codes "ko-system"

-- The first return of every command's `Run` function with one positional name: usage on a request for
-- help, the name and the parsed rest, or an error. `parse` is `fs.Parse` on the command's flags.
module _ (K : Kube) {F : Type 0} (parse : List Bytes → K.World → Result F × K.World) where
  open K use {World}

  unfoldable pub named_args : Bytes → List Bytes → World → Result (Bytes × F) × World
  unfolding split_positional
  named_args subcmd args w = elim (split_positional args subcmd (codes "<name>")) [
    | err e ↦ (err e, w)
    | ok (name, rest) ↦
        let (r, w') = parse rest w in elim r [ err e ↦ (err e, w') | ok f ↦ (ok (name, f), w') ]
  ]
