-- ===== src/Manager/Main.antt =====
-- cmd/manager/main.go: `init` and `main`. The logger is left out.
pub mod Starts
use kluster_one.Prelude.{
  ◌≡◌, refl, ◌⊎◌, inl, inr, ℕ, Bool, false, List, Option, none, some, Error, Bytes, codes, arith,
  Option-cases,
}
use kluster_one.Prelude.Int.{pos}
use kluster_one.Kube.{Kube}
use kluster_one.Actions.Drain.Clock.{ClockLaws}
use kluster_one.Controller.{Reconciler}
use kluster_one.Manager.{Flags, manager_reconciler}

-- All flags of `main`.
pub record MainFlags : Type 0 where
  pub metrics_addr : Bytes
  pub probe_addr : Bytes
  pub wiring : Flags

unfoldable pub default_flags : MainFlags
default_flags = record {
  metrics_addr = codes ":8080";
  probe_addr = codes ":8081";
  wiring = record {
    drain_timeout = pos 300000000000;
    requeue_interval = pos 10000000000;
    runner_image = codes "alpine:3.19";
    runner_keep_pods = false;
    runner_poll_interval = pos 5000000000;
  };
}

-- `flag.Parse` on the command line: the flags, or the exit code with which it ends the process.
pub data Parsed : Type 0 where
  flags : MainFlags → Parsed
  stops : ℕ → Parsed

pub Parsed-cases :
    (p : Parsed) → ((code : ℕ) × (p ≡ stops code)) ⊎ ((f : MainFlags) × (p ≡ flags f))
Parsed-cases (stops code) = inl (code, refl)
Parsed-cases (flags f) = inr (f, refl)

-- How the process ends: by a panic of `utilruntime.Must`, or with a code.
pub data Finish : Type 0 where
  panics : Finish
  exits : ℕ → Finish

-- What `main` calls outside the repository: the flag package, client-go and the controller-runtime.
pub record Runtime (K : Kube) : Type 0 where
  pub add_to_scheme : K.World → Option Error × K.World
  pub parse : MainFlags → List Bytes → Parsed  -- from the defaults
  pub get_config : K.World → Option Error × K.World
  pub new_manager : Bytes → Bytes → K.World → Option Error × K.World  -- probe and metrics addresses
  pub new_for_config : K.World → Option Error × K.World
  pub complete : Reconciler K → K.World → Option Error × K.World  -- the builder's `Complete`
  pub add_healthz_check : Bytes → K.World → Option Error × K.World
  pub add_readyz_check : Bytes → K.World → Option Error × K.World
  -- Runs the controller that was completed, until a signal or an error ends it.
  pub start : Reconciler K → K.World → Option Error × K.World

-- `os.Exit(1)` on an error, or else what follows.
unfoldable pub or_exit : {W : Type 0} → Option Error × W → (W → Finish × W) → Finish × W
or_exit (some e, w) next = (exits 1, w)
or_exit (none, w) next = next w

module _ (K : Kube) (clock : ClockLaws K) (R : Runtime K) where
  open K use {World}
  open R use {
    add_to_scheme, parse, get_config, new_manager, new_for_config, complete, add_healthz_check,
    add_readyz_check, start,
  }

  -- `main` behind the parsing of the flags. The reconciler is the one that SetupWithManager left.
  unfoldable pub run_manager : MainFlags → World → Finish × World
  run_manager f w =
      let r = manager_reconciler K clock f.wiring in
      or_exit (get_config w) λ w₁. or_exit (new_manager f.probe_addr f.metrics_addr w₁) λ w₂.
        or_exit (new_for_config w₂) λ w₃. or_exit (complete r w₃) λ w₄.
          or_exit (add_healthz_check (codes "healthz") w₄) λ w₅.
            or_exit (add_readyz_check (codes "readyz") w₅)
              λ w₆. or_exit (start r w₆) λ w₇. (exits 0, w₇)

  unfoldable pub manager_main : List Bytes → World → Finish × World
  manager_main args w =
      let (e, w') = add_to_scheme w in
      elim e [
        | some e ↦ (panics, w')
        | none ↦ elim (parse default_flags args) [
          | stops code ↦ (exits code, w')
          | flags f ↦ run_manager f w'
        ]
      ]
