-- ===== src/Cli/Main/Exits.antt =====
-- cmd/kubectl-nm/main.go: what the exit code says of push and pull.
use kluster_one.Prelude.{
  ◌≡◌, refl, ◌⊎◌, inl, inr, false, List, [], ◌∷◌, none, some, Result, Bytes, codes, zero, suc,
  Result-cases,
}
use kluster_one.Prelude.Strings.{bytes_eq}
use kluster_one.Kube.{Kube}
use kluster_one.Actions.Drain.Clock.{ClockLaws}
use kluster_one.Cli.Args.{has_help_flag}
use kluster_one.Cli.Copy.{Ending, out_of_fuel, panics, ended, run_copy, with_paths}
use kluster_one.Cli.Copy.Ends.{Created, EndsWell}
use kluster_one.Cli.Copy.Ends.Push.{push-EndsWell}
use kluster_one.Cli.Copy.Ends.Pull.{pull-EndsWell}
use kluster_one.Cli.Copy.Pull.{run_pull, pull}
use kluster_one.Cli.Copy.Push.{run_push, push}
use kluster_one.Cli.Main.{Parsers, Exit, waits, crashes, exits, dispatch, exit_of, main}
use kluster_one.Cli.Plugin.{Plugin}
use kluster_one.Cli.Wait.{ReadCompleted}

module _ (K : Kube) (P : Plugin K) (clock : ClockLaws K) where
  open K use {World}

  -- A resource was created and read as Completed.
  abbrev pub Copied : Type 0
  Copied = (name : Bytes) × Created K P clock name × ReadCompleted K name

  -- The process ends, and with the code 0 only if such a resource is there.
  abbrev pub ExitsRight : Exit World → Type 0
  ExitsRight waits = ⊥
  ExitsRight crashes = Unit
  ExitsRight (exits zero w) = Copied
  ExitsRight (exits (suc n) w) = n ≡ 0

  abbrev EndsRight : Ending World → Type 0
  EndsRight out_of_fuel = ⊥
  EndsRight panics = Unit
  EndsRight (ended none w) = Copied
  EndsRight (ended (some e) w) = Unit

  EndsWell-EndsRight :
      (wanted : Bytes) (e : Ending World) → EndsWell K P clock wanted e → EndsRight e
  EndsWell-EndsRight wanted out_of_fuel h = h
  EndsWell-EndsRight wanted panics h = tt
  EndsWell-EndsRight wanted (ended none w) h = (h.name, h.created, h.read)
  EndsWell-EndsRight wanted (ended (some e) w) h = tt

  module _ {F : Type 0} (parse : List Bytes → World → Result F × World) (subcmd : Bytes)
      (run : Bytes → Bytes → F → World → Ending World)
      (right : (from to : Bytes) (f : F) (w : World) → EndsRight (run from to f w)) where
    with_paths-EndsRight :
        (args : List Bytes) (w : World) → EndsRight (with_paths K P parse subcmd run args w)
    unfolding with_paths
    with_paths-EndsRight [] w = tt
    with_paths-EndsRight (from ∷ []) w = tt
    with_paths-EndsRight (from ∷ to ∷ rest) w = elim (Result-cases (parse rest w).0) [
      | inr (e, bad) ↦ rw (with_paths, bad) tt
      | inl (f, good) ↦ rw (with_paths, good) (right from to f (parse rest w).1)
    ]

    run_copy-EndsRight :
        (args : List Bytes) (w : World)
        → has_help_flag args ≡ false
        → EndsRight (run_copy K P parse subcmd run args w)
    unfolding run_copy
    run_copy-EndsRight args w plain = rw (run_copy, plain) (with_paths-EndsRight args w)

  module _ (parsers : Parsers K) where
    exit_of-ExitsRight : (e : Ending World) → EndsRight e → ExitsRight (exit_of K P parsers e)
    unfolding exit_of
    exit_of-ExitsRight out_of_fuel h = h
    exit_of-ExitsRight panics h = tt
    exit_of-ExitsRight (ended none w) h = h
    exit_of-ExitsRight (ended (some x) w) h = refl

    -- The exit code of `push` and `pull` can be relied on. For all arguments that do not ask for help, and for
    -- every behaviour of the flag parser, the files and the API server, as long as the clock runs, the process
    -- ends: with 0 only if a resource was created and read as Completed, with 1, or by a panic.
    pub main_copy_exits :
        (sub : Bytes) (args : List Bytes) (w : World)
        → (sub ≡ codes "push") ⊎ (sub ≡ codes "pull")
        → has_help_flag args ≡ false
        → ExitsRight (main K P parsers (sub ∷ args) w)
    unfolding main dispatch run_push run_pull bytes_eq
    main_copy_exits sub args w (inl pushes) plain = rw pushes (
        exit_of-ExitsRight _ (
          run_copy-EndsRight parsers.push (codes "push") (push K P)
            (λ from to f v. EndsWell-EndsRight f.nm_name _ (push-EndsWell K P clock from to f v))
            args w plain))
    main_copy_exits sub args w (inr pulls) plain = rw pulls (
        exit_of-ExitsRight _ (
          run_copy-EndsRight parsers.pull (codes "pull") (pull K P)
            (λ from to f v. EndsWell-EndsRight f.nm_name _ (pull-EndsWell K P clock from to f v))
            args w plain))
