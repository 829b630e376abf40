-- ===== src/Examples/PullTests.antt =====
-- A pull on the small cluster, from the runner pod's log to the file.
use kluster_one.Prelude.{◌≡◌, refl, true, [], ◌∷◌, none, some, codes}
use kluster_one.Prelude.Int.{pos}
use kluster_one.Prelude.Strings.{lookup, bytes_eq}
use kluster_one.Api.{NodeMaintenance, NodeStatus, pending_node}
use kluster_one.Kube.{Pod, PodPhase}
use kluster_one.Actions.Script.{annot_output_cm, tail_logs, finish}
use kluster_one.Actions.Script.ConfigMaps.{capture_output, create_or_update}
use kluster_one.Cli.Copy.Back.{ended_as}
use kluster_one.Cli.Copy.Pull.{output_name, finish_pull, write_pulled}
use kluster_one.Cli.Copy.RoundTrip.{pulled_file_back}
use kluster_one.Cli.Args.{runner_ns}
use kluster_one.Manager.{script_config}
use kluster_one.Examples.Capture.{pulled_file}
use kluster_one.Examples.Cluster.{Cluster, toy, toy_config_maps}
use kluster_one.Examples.Fixtures.{fresh, cluster, flags, pod, name_a}
use kluster_one.Examples.Terminal.{terminal, terminal_base64}

abbrev asking : NodeMaintenance
asking = record fresh {
  meta = record {
    name = codes "copy";
    uid = codes "2";
    annotations = (annot_output_cm, codes "nm-copy-output") ∷ [];
  };
}

abbrev done : Pod
done = record (pod (codes "copy-node-a") name_a []) {
  phase = PodPhase.succeeded;
  container_statuses = record { name = codes "run"; terminated = some (pos 0) } ∷ [];
}

abbrev status : NodeStatus
status = pending_node name_a 5

abbrev after : Cluster
after = (finish toy (script_config flags) asking done status cluster).2

asks :
    lookup annot_output_cm asking.meta.annotations ≡ some (output_name toy terminal (codes "copy"))
unfolding lookup bytes_eq output_name
asks = refl

finished : (finish toy (script_config flags) asking done status cluster).1 ≡ none
unfolding finish lookup bytes_eq capture_output create_or_update tail_logs
finished = refl

pulled_file_back_example :
    finish_pull toy terminal
      (codes "f")
      (output_name toy terminal (codes "copy"))
      true
      (codes "copy")
      after
    ≡ ended_as (
        write_pulled toy terminal
          (codes "f")
          pulled_file
          true
          (codes "copy")
          (toy.get_config_map runner_ns (output_name toy terminal (codes "copy")) after).1)
pulled_file_back_example =
    pulled_file_back toy terminal terminal_base64 toy_config_maps flags asking done status cluster
      after (codes "f") pulled_file true (codes "copy") asks refl finished refl
