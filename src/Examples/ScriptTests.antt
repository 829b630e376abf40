-- ===== src/Examples/ScriptTests.antt =====
-- The Script action and its names on the small cluster.
use kluster_one.Prelude.{
  ℕ, ltb, ◌&&◌, ◌||◌, ◌==◌, ◌<◌, ◌≡◌, refl, Bool, true, false, [], ◌∷◌, ◌++◌, Option, none, some,
  Error, arith, Bytes, codes, All,
}
use kluster_one.Prelude.Int.{pos}
use kluster_one.Prelude.Strings.{bytes_eq, lookup}
use kluster_one.Api.{NodeStatus, pending_node}
use kluster_one.Actions.Script.ConfigMaps.{
  script_config_map, ensure_script_config_map, create_or_update,
}
use kluster_one.Actions.Script.Success.{Succeeded, script_execute_succeeds}
use kluster_one.Actions.Names.{
  is_alnum, trim_right_dash, runes, pod_rune, to_lower, runner_pod_name, sanitize_label,
}
use kluster_one.Actions.Names.Labels.{IsDns1123Label, ends_alnum, runner_pod_name-IsDns1123Label}
use kluster_one.Actions.Names.Collisions.{runner_pod_name_collides, sanitize_label_ends_in_dot}
use kluster_one.Actions.Script.{
  script_execute, run_script, await_pod, wait_for_pod, finish, tail_logs, container_exit_code,
}
use kluster_one.Actions.Script.RunnerPod.{ensure_pod, build_pod}
use kluster_one.Prelude.Spaces.{trim_space}
use kluster_one.Actions.Script.Waiting.{enough_rounds, script_execute_returns}
use kluster_one.Examples.Cluster.{Cluster, toy, toy_clock}
use kluster_one.Cli.Pull.{pulled}
use kluster_one.Examples.Capture.{unary, pulled_file}
use kluster_one.Examples.Fixtures.{patch_script, seeded, cluster, name_a, name_b, node, runner}

abbrev status_a : NodeStatus
status_a = pending_node name_a 5

abbrev all_true : (ℕ → Bool) → Bytes → Bool
all_true f [] = true
all_true f (c ∷ s) = f c && all_true f s

All-all_true :
    {P : ℕ → Type 0} (f : ℕ → Bool) (s : Bytes)
    → ((c : ℕ) → f c ≡ true → P c)
    → all_true f s ≡ true
    → All P s
All-all_true f [] h e = tt
All-all_true f (c ∷ s) h e = (h c (ground (arith, e)), All-all_true f s h (ground (arith, e)))

script_execute_returns_example :
    (r : NodeStatus × Option Error × Cluster) × (script_execute toy runner
        (enough_rounds toy toy_clock seeded)
        seeded
        (node name_a)
        status_a
        cluster
      ≡ some r)
script_execute_returns_example =
    script_execute_returns toy toy_clock runner seeded (node name_a) status_a cluster

runner_pod_name-IsDns1123Label_example :
    IsDns1123Label (runner_pod_name (λ r. r) (codes "Patch.1") name_a)
runner_pod_name-IsDns1123Label_example =
    runner_pod_name-IsDns1123Label (λ r. r) (codes "Patch.1") name_a

abbrev long : Bytes
long = codes "rolling-kernel-upgrade-for-all-worker-nodes-in-region-europe-4"

runner_pod_name_collides_example :
    runner_pod_name (λ r. r) long name_a ≡ runner_pod_name (λ r. r) long name_b
runner_pod_name_collides_example =
    runner_pod_name_collides (λ r. r) long name_a name_b
      (All-all_true {P = λ c. c < 0x80} (λ c. ltb c 0x80) long (λ c h. ground arith) refl)
      (omega arith)

abbrev host : Bytes
host = codes "ip-10-0-0-1-worker-pool-of-the-eastern-region-number-seventeen"

sanitize_label_ends_in_dot_example :
    (sanitize_label (λ r. r) (host ++ b'.' ∷ codes "internal") ≡ host ++ b'.' ∷ [])
    × (ends_alnum (sanitize_label (λ r. r) (host ++ b'.' ∷ codes "internal")) ≡ false)
sanitize_label_ends_in_dot_example =
    sanitize_label_ends_in_dot (λ r. r) host (codes "internal")
      (All-all_true {P = λ c. is_alnum c || (c == b'-') ≡ true} (λ c. is_alnum c || (c == b'-'))
        host (λ c h. h) refl)
      (omega arith)

-- The ConfigMap of the script is there.
abbrev rendered : Cluster
rendered = record cluster {
  config_map = some (script_config_map seeded.meta patch_script runner.runner_namespace);
}

-- The pod that the script runs in, as the toy cluster ends it at once.
abbrev after_script : NodeStatus × Option Error × Cluster
after_script = (
  record status_a {
    script_pod_name = runner_pod_name toy.lower_rune seeded.meta.name name_a;
    script_exit_code = some (pos 0);
    script_log_tail = trim_space (pulled (unary pulled_file));
  },
  none,
  rendered,
)

script_run : script_execute toy runner 1 seeded (node name_a) status_a cluster ≡ some after_script
unfolding script_execute run_script await_pod wait_for_pod finish bytes_eq ensure_script_config_map
    create_or_update script_config_map ensure_pod runner_pod_name trim_right_dash runes pod_rune
    to_lower build_pod lookup tail_logs trim_space container_exit_code
script_run = refl

script_execute_succeeds_example : Succeeded toy runner seeded (node name_a) after_script.0
script_execute_succeeds_example =
    script_execute_succeeds toy runner 1 seeded (node name_a) status_a after_script.0 cluster
      rendered script_run
