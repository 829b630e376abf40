-- ===== src/Actions/Script/RunnerPod.antt =====
-- internal/actions/script.go: `buildPod` and `ensurePod`.
use kluster_one.Prelude.{
  Bool, true, false, List, [], ◌∷◌, ◌++◌, map, none, some, Result, ok, err, Error, Bytes, codes,
  if◌then◌else◌, already_exists, is_not_found,
}
use kluster_one.Prelude.Int.{ℤ}
use kluster_one.Api.{NodeMaintenance, ScriptSpec, EnvVar}
use kluster_one.Kube.{
  Kube, Node, Pod, PodSpec, PodPhase, Container, Volume, VolumeMount, Resources, config_map,
  host_path,
}
use kluster_one.Actions.Names.{sanitize_label}
use kluster_one.Actions.Script.ConfigMaps.{label_owner}

pub record Script : Type 0 where
  pub runner_namespace : Bytes
  pub default_image : Bytes
  pub poll_interval : ℤ
  pub keep_pods : Bool
  pub log_tail_bytes : ℤ

abbrev pub default_runner_image : Bytes
default_runner_image = codes "alpine:3.19"

abbrev pub host_scripts_dir : Bytes
host_scripts_dir = codes "/tmp/ko-controller"

unfoldable pub default_runner_resources : Resources
default_runner_resources = record { cpu = codes "10m"; memory = codes "32Mi" }

-- The image, with its defaults.
unfoldable pub runner_image : Script → ScriptSpec → Bytes
runner_image s script = elim script.image [
  | _ ∷ _ ↦ script.image
  | [] ↦ elim s.default_image [ _ ∷ _ ↦ s.default_image | [] ↦ default_runner_image ]
]

unfoldable pub runs_on_host : ScriptSpec → Bool
runs_on_host script = elim script.run_on_host [ none ↦ true | some b ↦ b ]

unfoldable pub runner_env : Node → ScriptSpec → List EnvVar
runner_env node script =
    record { name = codes "NODE_NAME"; value = node.name }
    ∷ map (λ (e : EnvVar). record { name = e.name; value = e.value }) script.env

abbrev script_volume : Bytes → Volume
script_volume cm_name = record { name = codes "script"; source = config_map cm_name 0o755 }

abbrev host_volume : Volume
host_volume = record {
  name = codes "host-scripts";
  source = host_path host_scripts_dir (codes "DirectoryOrCreate");
}

abbrev mount : Bytes → Bytes → Bool → VolumeMount
mount name path read_only = record { name = name; mount_path = path; read_only = read_only }

abbrev if_not_present : Bytes
if_not_present = codes "IfNotPresent"

-- The container of a script that runs in the pod.
unfoldable pub in_pod_container : Bytes → List EnvVar → Bytes → Container
in_pod_container image env cm_key = record {
  name = codes "run";
  image = image;
  image_pull_policy = if_not_present;
  env = env;
  privileged = none;
  command = codes "/bin/sh" ∷ [];
  args = (codes "/scripts/" ++ cm_key) ∷ [];
  volume_mounts = mount (codes "script") (codes "/scripts") true ∷ [];
  resources = default_runner_resources;
}

-- The init container that copies the script onto the host.
unfoldable pub stage_container : Bytes → Bytes → Container
stage_container staged_name cm_key = record {
  name = codes "stage";
  image = codes "busybox:1.36";
  image_pull_policy = if_not_present;
  env = [];
  privileged = none;
  command = codes "/bin/sh" ∷ codes "-c" ∷ [];
  args =
      (codes "cp /scripts/"
        ++ (cm_key
            ++ (codes " /host-scripts/"
                ++ (staged_name ++ (codes " && chmod 0755 /host-scripts/" ++ staged_name)))))
      ∷ [];
  volume_mounts =
      mount (codes "script") (codes "/scripts") true
      ∷ mount (codes "host-scripts") (codes "/host-scripts") false
      ∷ [];
  resources = default_runner_resources;
}

-- The container that enters the host's namespaces and runs the staged script there.
unfoldable pub host_container : Bytes → List EnvVar → Bytes → Container
host_container image env staged = record {
  name = codes "run";
  image = image;
  image_pull_policy = if_not_present;
  env = env;
  privileged = some true;
  command = codes "/bin/sh" ∷ codes "-c" ∷ [];
  args =
      (codes "/usr/bin/nsenter --target 1 --mount --uts --ipc --net --pid -- /bin/sh "
        ++ (staged ++ (codes "; rc=$?; rm -f " ++ (staged ++ codes "; exit $rc"))))
      ∷ [];
  volume_mounts = mount (codes "host-scripts") host_scripts_dir false ∷ [];
  resources = default_runner_resources;
}

abbrev pub annot_run_uid : Bytes
annot_run_uid = codes "ko.io/run-uid"

module _ (K : Kube) where
  open K use {World, get_pod, create_pod}

  abbrev base_spec : Node → Bytes → PodSpec
  base_spec node cm_name = record {
    node_name = node.name;
    restart_policy = codes "Never";
    host_pid = false;
    tolerations = codes "Exists" ∷ [];
    volumes = script_volume cm_name ∷ [];
    init_containers = [];
    containers = [];
  }

  unfoldable pub pod_spec : Script → ScriptSpec → Node → Bytes → Bytes → Bytes → PodSpec
  unfolding runner_image runs_on_host runner_env in_pod_container stage_container host_container
  pod_spec s script node pod_name cm_name cm_key =
      let image = runner_image s script in
      let env = runner_env node script in
      let common = base_spec node cm_name in
      let staged_name = pod_name ++ codes ".sh" in
      if runs_on_host script
      then record common {
        host_pid = true;
        volumes = common.volumes ++ host_volume ∷ [];
        init_containers = stage_container staged_name cm_key ∷ [];
        containers = host_container image env (host_scripts_dir ++ (codes "/" ++ staged_name)) ∷ [];
      }
      else record common { containers = in_pod_container image env cm_key ∷ [] }

  -- The status of a pod that is not created yet is empty.
  unfoldable pub build_pod :
      Script → NodeMaintenance → ScriptSpec → Node → Bytes → Bytes → Bytes → Pod
  unfolding pod_spec
  build_pod s nm script node pod_name cm_name cm_key = record {
    name = pod_name;
    ns = s.runner_namespace;
    labels =
        (label_owner, nm.meta.name)
        ∷ (codes "ko.io/node", sanitize_label K.lower_rune node.name)
        ∷ (codes "ko.io/action", codes "Script")
        ∷ [];
    annotations = (annot_run_uid, nm.meta.uid) ∷ [];
    owner_kinds = [];
    deletion_timestamp = none;
    phase = PodPhase.other_phase [];
    container_statuses = [];
    spec = pod_spec s script node pod_name cm_name cm_key;
  }

  abbrev is_taken : Error → Bool
  is_taken e = elim e.reason [ already_exists ↦ true | _ ↦ false ]

  unfoldable pub ensure_pod :
      Script
      → NodeMaintenance
      → ScriptSpec
      → Node
      → Bytes
      → Bytes
      → Bytes
      → World
      → Result Pod × World
  ensure_pod s nm script node pod_name cm_name cm_key w =
      let (r, w₁) = get_pod s.runner_namespace pod_name w in
      let (created, w₂) = create_pod (build_pod s nm script node pod_name cm_name cm_key) w₁ in
      elim r [
        | ok existing ↦ (ok existing, w₁)
        | err e ↦
            if is_not_found e
            then elim created [
              | ok p ↦ (ok p, w₂)
              | err ce ↦
                  if is_taken ce then get_pod s.runner_namespace pod_name w₂ else (err ce, w₂)
            ]
            else (err e, w₁)
      ]
