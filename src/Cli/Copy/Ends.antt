-- ===== src/Cli/Copy/Ends.antt =====
-- internal/cli/copy.go: how `push` and `pull` end.
pub mod Push
pub mod Pull
use kluster_one.Prelude.{
  ◌≡◌, ◌≢◌, refl, ◌⊎◌, inl, inr, Bool, false, not, ◌&&◌, List, [], Option, none, some, Error, Bytes,
  codes, arith, ltb, length, Bool-cases, Option-cases, Result-cases,
}
use kluster_one.Prelude.Int.{ℤ, whole_seconds}
use kluster_one.Kube.{Kube}
use kluster_one.Actions.Drain.Clock.{ClockLaws}
use kluster_one.Cli.Args.{is_empty, runner_ns}
use kluster_one.Cli.Payload.{has_prefix, extract_payload}
use kluster_one.Cli.Plugin.{Plugin, FileInfo}
use kluster_one.Cli.Wait.{ReadCompleted, wait_for_nm_completion_returns}
use kluster_one.Cli.Copy.{
  CopyTargets, PushFlags, PullFlags, Ending, out_of_fuel, panics, ended, max_copy_bytes, await,
  create_copy_nm,
}
use kluster_one.Cli.Copy.Push.{report_copy, after_copy, run_copy_nm, push_body, push_file, push}
use kluster_one.Cli.Copy.Pull.{
  write_pulled, decode_pulled, finish_pull, after_wait, create_pull, pull_named, pull,
}

module _ (K : Kube) (P : Plugin K) (clock : ClockLaws K) where
  open K use {World, get_config_map}
  open P use {stat, read_file, decode_base64}

  -- A resource of the name was created.
  pub record Created (name : Bytes) : Type 0 where
    pub body : Bytes
    pub targets : CopyTargets
    pub secs : ℤ
    pub extra : List (Bytes × Bytes)
    pub at : World
    pub fine : (create_copy_nm K P name body targets secs extra at).0 ≡ none

  -- The resource, of the wanted name if there is one, was created and read as Completed.
  pub record Finished (wanted : Bytes) : Type 0 where
    pub name : Bytes
    pub wished : is_empty wanted ≡ false → name ≡ wanted
    pub created : Created name
    pub read : ReadCompleted K name

  -- There was fuel enough, and if there is no error, the resource is finished.
  abbrev pub EndsWell : Bytes → Ending World → Type 0
  EndsWell wanted out_of_fuel = ⊥
  EndsWell wanted panics = Unit
  EndsWell wanted (ended (some e) w) = Unit
  EndsWell wanted (ended none w) = Finished wanted

  pub EndsWell-ended :
      (wanted : Bytes) (e : Option Error) (w : World)
      → Finished wanted
      → EndsWell wanted (ended e w)
  EndsWell-ended wanted (some e) w done = tt
  EndsWell-ended wanted none w done = done

  -- What is known of the name before the wait.
  abbrev pub Named : Bytes → Bytes → Type 0
  Named wanted name = (is_empty wanted ≡ false → name ≡ wanted) × Created name

  pub finished : (wanted name : Bytes) → Named wanted name → ReadCompleted K name → Finished wanted
  finished wanted name (wished, created) read = record {
    name = name;
    wished = wished;
    created = created;
    read = read;
  }

  pub await_ends :
      (name : Bytes) (timeout : ℤ) (w : World)
      → (e : Option Error) × (w' : World) × (await K P name timeout w ≡ some (e, w'))
        × ((e ≢ none) ⊎ ReadCompleted K name)
  unfolding await
  await_ends name timeout w = wait_for_nm_completion_returns K clock name timeout w
