-- ===== src/Kube.antt =====
-- The Kubernetes API server and the clock, which are not part of the program: their operations are
-- parameters. An operation takes the state of the world and returns its answer with the next state.
-- The records hold the fields that the program reads or writes.
use kluster_one.Prelude.{ℕ, Bool, List, Option, Bytes, Error, Result}
use kluster_one.Prelude.Int.{ℤ}
use kluster_one.Api.{NodeMaintenance, EnvVar}

pub record Node : Type 0 where
  pub name : Bytes
  pub unschedulable : Bool

-- `labels.Everything()` and `labels.SelectorFromSet(set)`
pub data Selector : Type 0 where
  everything : Selector
  from_set : List (Bytes × Bytes) → Selector

pub data PodPhase : Type 0 where
  succeeded failed : PodPhase
  other_phase : Bytes → PodPhase

pub record ContainerStatus : Type 0 where
  pub name : Bytes
  pub terminated : Option ℤ  -- the exit code, once terminated

pub record VolumeMount : Type 0 where
  pub name : Bytes
  pub mount_path : Bytes
  pub read_only : Bool

pub record Resources : Type 0 where
  pub cpu : Bytes
  pub memory : Bytes

pub record Container : Type 0 where
  pub name : Bytes
  pub image : Bytes
  pub image_pull_policy : Bytes
  pub env : List EnvVar
  pub privileged : Option Bool
  pub command : List Bytes
  pub args : List Bytes
  pub volume_mounts : List VolumeMount
  pub resources : Resources

pub data VolumeSource : Type 0 where
  config_map : Bytes → ℕ → VolumeSource  -- name, default mode
  host_path : Bytes → Bytes → VolumeSource  -- path, type

pub record Volume : Type 0 where
  pub name : Bytes
  pub source : VolumeSource

pub record PodSpec : Type 0 where
  pub node_name : Bytes
  pub restart_policy : Bytes
  pub host_pid : Bool
  pub tolerations : List Bytes  -- operators
  pub volumes : List Volume
  pub init_containers : List Container
  pub containers : List Container

pub record Pod : Type 0 where
  pub name : Bytes
  pub ns : Bytes
  pub labels : List (Bytes × Bytes)
  pub annotations : List (Bytes × Bytes)
  pub owner_kinds : List Bytes
  pub deletion_timestamp : Option ℕ
  pub phase : PodPhase
  pub container_statuses : List ContainerStatus
  pub spec : PodSpec

pub record OwnerReference : Type 0 where
  pub api_version : Bytes
  pub kind : Bytes
  pub name : Bytes
  pub uid : Bytes

pub record ConfigMap : Type 0 where
  pub name : Bytes
  pub ns : Bytes
  pub labels : List (Bytes × Bytes)
  pub owner_references : List OwnerReference
  pub text : List (Bytes × Bytes)  -- `Data`
  pub binary : List (Bytes × Bytes)  -- `BinaryData`

pub record Kube : Type 1 where
  pub World : Type 0
  pub quote : Bytes → Bytes  -- `%q` of package fmt
  pub lower_rune : ℕ → ℕ  -- `unicode.ToLower` beyond ASCII
  pub show_duration : ℤ → Bytes  -- `time.Duration.String`
  pub now : World → ℕ  -- nanoseconds
  -- `select` on `ctx.Done()` and `time.After(poll)`: the context's error if it is done first.
  pub wait : ℤ → World → Option Error × World
  pub list_nodes : Selector → World → Result (List Node) × World
  pub get_node : Bytes → World → Result Node × World
  -- The node's name and the text of the strategic-merge patch.
  pub patch_node : Bytes → Bytes → World → Option Error × World
  -- All pods with `spec.nodeName` equal to the name.
  pub list_pods : Bytes → World → Result (List Pod) × World
  -- Namespace, name, grace period.
  pub evict_pod : Bytes → Bytes → Option ℤ → World → Option Error × World
  -- Namespace, name.
  pub get_pod : Bytes → Bytes → World → Result Pod × World
  pub create_pod : Pod → World → Result Pod × World
  pub delete_pod : Bytes → Bytes → World → World
  -- Namespace, name, container, limit in bytes: an error of opening the stream, or what reading gives.
  pub get_logs : Bytes → Bytes → Bytes → ℤ → World → Result (Result Bytes) × World
  pub create_config_map : ConfigMap → World → Option Error × World
  pub get_config_map : Bytes → Bytes → World → Result ConfigMap × World
  pub update_config_map : ConfigMap → World → Option Error × World
  -- The NodeMaintenance resource: read from the cache, and the status subresource.
  pub get_nm : Bytes → World → Result NodeMaintenance × World
  pub update_status : NodeMaintenance → World → Option Error × World
