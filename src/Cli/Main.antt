-- ===== src/Cli/Main.antt =====
-- cmd/kubectl-nm/main.go: the dispatch on the subcommand, and the exit code.
pub mod Exits
use kluster_one.Prelude.{
  ℕ, Bool, true, List, [], ◌∷◌, ◌++◌, Option, none, some, Result, Error, Bytes, codes,
  if◌then◌else◌,
}
use kluster_one.Prelude.Strings.{bytes_eq}
use kluster_one.Kube.{Kube}
use kluster_one.Cli.Commands.Entry.{run_pause, run_run, run_attach}
use kluster_one.Cli.Copy.{PushFlags, PullFlags, Ending, out_of_fuel, panics, ended}
use kluster_one.Cli.Copy.Pull.{run_pull}
use kluster_one.Cli.Copy.Push.{run_push}
use kluster_one.Cli.Create.{CreateFlags}
use kluster_one.Cli.Create.Apply.{run_create}
use kluster_one.Cli.Logs.{LogsFlags, run_logs}
use kluster_one.Cli.Plugin.{Plugin}
use kluster_one.Cli.Status.{run_status}

-- `fs.Parse` on the flags of each subcommand.
pub record Parsers (K : Kube) : Type 0 where
  pub create : List Bytes → K.World → Result CreateFlags × K.World
  pub attach : List Bytes → K.World → Result (Option Bytes) × K.World
  pub pause : List Bytes → K.World → Result Bytes × K.World
  pub plain : List Bytes → K.World → Result (Unit {0}) × K.World
  pub logs : List Bytes → K.World → Result LogsFlags × K.World
  pub push : List Bytes → K.World → Result PushFlags × K.World
  pub pull : List Bytes → K.World → Result PullFlags × K.World

-- How the process ends; it waits for ever if `logs -f` follows a log without an end.
pub data Exit (W : Type 0) : Type 0 where
  waits crashes : Exit W
  exits : ℕ → W → Exit W

usage_text : Bytes
usage_text =
    codes "kubectl nm "
    ++ (0xe2
        ∷ 0x80
        ∷ 0x94
        ∷ codes
            " manage NodeMaintenance (ko.io) resources\n\nUsage:\n  kubectl nm create <name> [flags]\n  kubectl nm attach <name> <script-path>\n  kubectl nm pause  <name> [--reason <text>]\n  kubectl nm run    <name>\n  kubectl nm status <name>\n  kubectl nm logs   <name> [--node <node>] [-f]\n  kubectl nm push   <local-path> <remote-path> [--all-nodes|--selector|--nodes]\n  kubectl nm pull   <remote-path> <local-path> --node <node>\n\nRun \"kubectl nm <subcommand> -h\" for flag details.\n")

module _ (K : Kube) (P : Plugin K) (parsers : Parsers K) where
  open K use {World, quote}
  open P use {print, warn}

  -- A command that cannot run out of fuel or panic.
  abbrev settled : Option Error × World → Ending World
  settled (e, w) = ended e w

  -- `logs -f` may wait for ever.
  abbrev followed : Option (Option Error × World) → Ending World
  followed none = out_of_fuel
  followed (some (e, w)) = ended e w

  -- The cases of the `switch` that run a command.
  unfoldable pub dispatch : Bytes → List Bytes → World → Option (Ending World)
  unfolding bytes_eq
  dispatch sub args w =
      if bytes_eq sub (codes "create")
      then some (settled (run_create K P parsers.create args w))
      else if bytes_eq sub (codes "attach")
      then some (settled (run_attach K P parsers.attach args w))
      else if bytes_eq sub (codes "pause")
      then some (settled (run_pause K P parsers.pause args w))
      else if bytes_eq sub (codes "run")
      then some (settled (run_run K P parsers.plain args w))
      else if bytes_eq sub (codes "status")
      then some (settled (run_status K P parsers.plain args w))
      else if bytes_eq sub (codes "logs")
      then some (followed (run_logs K P parsers.logs args w))
      else if bytes_eq sub (codes "push")
      then some (run_push K P parsers.push args w)
      else if bytes_eq sub (codes "pull")
      then some (run_pull K P parsers.pull args w)
      else none

  unfoldable pub exit_of : Ending World → Exit World
  exit_of out_of_fuel = waits
  exit_of panics = crashes
  exit_of (ended none w) = exits 0 w
  exit_of (ended (some e) w) = exits 1 (warn (codes "error: " ++ (e.text ++ codes "\n")) w)

  abbrev is_help : Bytes → Bool
  is_help sub =
      if bytes_eq sub (codes "help")
      then true
      else if bytes_eq sub (codes "-h")
      then true
      else bytes_eq sub (codes "--help")

  -- On `os.Args` behind the program's name.
  unfoldable pub main : List Bytes → World → Exit World
  unfolding dispatch exit_of usage_text
  main [] w = exits 2 (warn usage_text w)
  main (sub ∷ args) w = elim (dispatch sub args w) [
    | some e ↦ exit_of e
    | none ↦
        if is_help sub
        then exits 0 (print usage_text w)
        else exits 2
            (warn usage_text (warn (codes "unknown subcommand " ++ (quote sub ++ codes "\n\n")) w))
  ]
