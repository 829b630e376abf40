-- ===== src/Examples/Fixtures.antt =====
-- The data of the examples.
use kluster_one.Prelude.{◌+◌, true, false, List, [], ◌∷◌, none, some, Bytes, codes}
use kluster_one.Prelude.Int.{pos}
use kluster_one.Api.{
  NodeMaintenance, ActionSpec, ScriptSpec, ActionType, cordon, drain, uncordon, in_progress,
  pending_node, zero_status,
}
use kluster_one.Kube.{Node, Pod, PodPhase, PodSpec}
use kluster_one.Actions.Drain.{Drain}
use kluster_one.Actions.Script.RunnerPod.{Script}
use kluster_one.Manager.{Flags}
use kluster_one.Cli.Copy.{PullFlags}
use kluster_one.Cli.Create.{CreateFlags}
use kluster_one.Examples.Cluster.{Cluster}

abbrev pub action : ActionType → ActionSpec
action t = record { type = t; drain_options = none }

abbrev pub plan : List ActionSpec
plan = action cordon ∷ action drain ∷ action uncordon ∷ []

abbrev pub name_a : Bytes
name_a = codes "node-a"

abbrev pub name_b : Bytes
name_b = codes "node-b"

abbrev pub node : Bytes → Node
node n = record { name = n; unschedulable = false }

abbrev empty_spec : Bytes → PodSpec
empty_spec n = record {
  node_name = n;
  restart_policy = codes "Always";
  host_pid = false;
  tolerations = [];
  volumes = [];
  init_containers = [];
  containers = [];
}

-- A running pod on a node, with the kinds of its owners.
abbrev pub pod : Bytes → Bytes → List Bytes → Pod
pod n on kinds = record {
  name = n;
  ns = codes "default";
  labels = [];
  annotations = [];
  owner_kinds = kinds;
  deletion_timestamp = none;
  phase = PodPhase.other_phase (codes "Running");
  container_statuses = [];
  spec = empty_spec on;
}

abbrev pub web : Pod
web = pod (codes "web") name_a (codes "ReplicaSet" ∷ [])

abbrev pub agent : Pod
agent = pod (codes "agent") name_a (codes "DaemonSet" ∷ [])

abbrev pub patch_script : ScriptSpec
patch_script = record {
  inline = codes "uname -r";
  image = [];
  timeout_seconds = some (pos 60);
  run_on_host = none;
  env = [];
}

abbrev pub fresh : NodeMaintenance
fresh = record {
  meta = record { name = codes "patch"; uid = codes "1"; annotations = [] };
  spec = record {
    paused = false;
    all_nodes = false;
    node_selector = [];
    node_names = name_a ∷ name_b ∷ [];
    script = some patch_script;
    actions = plan;
    strategy = record { max_unavailable = pos 1; at_once = false };
  };
  status = zero_status;
}

-- The resource once its status is seeded.
abbrev pub seeded : NodeMaintenance
seeded = record fresh {
  status = record zero_status {
    phase = in_progress;
    start_time = some 5;
    nodes = pending_node name_a 5 ∷ pending_node name_b 5 ∷ [];
  };
}

abbrev pub cluster : Cluster
cluster = record {
  clock = 5;
  nodes = node name_a ∷ node name_b ∷ [];
  pods = web ∷ agent ∷ [];
  resource = some seeded;
  busy = false;
  config_map = none;
  evictions = [];
}

abbrev pub flags : Flags
flags = record {
  drain_timeout = pos 300000000000;
  requeue_interval = pos 10000000000;
  runner_image = codes "alpine:3.19";
  runner_keep_pods = false;
  runner_poll_interval = pos 5000000000;
}

abbrev pub drainer : Drain
drainer = record { default_timeout = pos 20; poll_interval = pos 10 }

abbrev pub runner : Script
runner = record {
  runner_namespace = codes "ko-system";
  default_image = [];
  poll_interval = pos 5000000000;
  keep_pods = false;
  log_tail_bytes = pos 0;
}

-- The clock goes on by a second.
abbrev pub tick : Cluster → Cluster
tick w = record w { clock = w.clock + 1000000000 }

abbrev pub pull_flags : PullFlags
pull_flags = record {
  node = name_a;
  keep = true;
  timeout = pos 60000000000;
  nm_name = codes "copy";
}

-- The defaults, with an inline script.
abbrev pub defaults : CreateFlags
defaults = record {
  script_path = [];
  inline = codes "uname -r";
  all_nodes = false;
  at_once = false;
  max_unavailable = pos 0;
  selector = [];
  nodes = [];
  include_cordon = true;
  include_uncord = true;
  include_drain = false;
  no_cordon = false;
  no_uncord = false;
  timeout = pos 600000000000;
  image = [];
  in_pod = false;
  paused = false;
  dry_run = false;
  output_yaml = false;
}
