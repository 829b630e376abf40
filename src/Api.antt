-- ===== src/Api.antt =====
-- api/v1alpha1/nodemaintenance_types.go: the NodeMaintenance resource. A Go pointer that may be
-- nil is an `Option`, a map an association list, an int64 a ℤ, and an int32 counter its 32 bits.
-- `Phase` and `ActionType` are Go strings: the listed constants, and any other text.
pub mod Targets
pub mod Columns
pub mod Schema
use kluster_one.Prelude.{ℕ, Bool, List, [], Option, none, Bytes, codes}
use kluster_one.Prelude.Int.{ℤ}

pub data ActionType : Type 0 where
  cordon drain uncordon script : ActionType
  unlisted : Bytes → ActionType

-- `string(actionType)`
unfoldable pub action_name : ActionType → Bytes
action_name cordon = codes "Cordon"
action_name drain = codes "Drain"
action_name uncordon = codes "Uncordon"
action_name script = codes "Script"
action_name (unlisted s) = s

-- `unset` is the empty string, which a fresh object has.
pub data Phase : Type 0 where
  unset pending in_progress completed failed : Phase
  unknown : Bytes → Phase

pub record EnvVar : Type 0 where
  pub name : Bytes
  pub value : Bytes

pub record ScriptSpec : Type 0 where
  pub inline : Bytes
  pub image : Bytes
  pub timeout_seconds : Option ℤ
  pub run_on_host : Option Bool
  pub env : List EnvVar

pub record DrainOptions : Type 0 where
  pub grace_period_seconds : Option ℤ
  pub timeout_seconds : Option ℤ
  pub ignore_daemon_sets : Bool

pub record ActionSpec : Type 0 where
  pub type : ActionType
  pub drain_options : Option DrainOptions

pub record Strategy : Type 0 where
  pub max_unavailable : ℤ
  pub at_once : Bool

pub record NodeMaintenanceSpec : Type 0 where
  pub paused : Bool
  pub all_nodes : Bool
  pub node_selector : List (Bytes × Bytes)
  pub node_names : List Bytes
  pub script : Option ScriptSpec
  pub actions : List ActionSpec
  pub strategy : Strategy

pub record StatusSummary : Type 0 where
  pub total : ℕ
  pub pending : ℕ
  pub in_progress : ℕ
  pub completed : ℕ
  pub failed : ℕ

pub record NodeStatus : Type 0 where
  pub name : Bytes
  pub phase : Phase
  pub current_action : Bytes
  pub completed_actions : List Bytes
  pub message : Bytes
  pub last_transition_time : Option ℕ
  pub script_pod_name : Bytes
  pub script_exit_code : Option ℤ
  pub script_log_tail : Bytes

pub record NodeMaintenanceStatus : Type 0 where
  pub phase : Phase
  pub nodes : List NodeStatus
  pub start_time : Option ℕ
  pub completion_time : Option ℕ
  pub summary : StatusSummary
  pub targets : Bytes

-- The fields of `metav1.ObjectMeta` that the program reads.
pub record ObjectMeta : Type 0 where
  pub name : Bytes
  pub uid : Bytes
  pub annotations : List (Bytes × Bytes)

pub record NodeMaintenance : Type 0 where
  pub meta : ObjectMeta
  pub spec : NodeMaintenanceSpec
  pub status : NodeMaintenanceStatus

-- The zero values of the Go structs.
abbrev pub zero_summary : StatusSummary
zero_summary = record { total = 0; pending = 0; in_progress = 0; completed = 0; failed = 0 }

abbrev pub zero_status : NodeMaintenanceStatus
zero_status = record {
  phase = unset;
  nodes = [];
  start_time = none;
  completion_time = none;
  summary = zero_summary;
  targets = [];
}

-- `NodeStatus{Name: n, Phase: PhasePending, LastTransitionTime: &now}`
abbrev pub pending_node : Bytes → ℕ → NodeStatus
pending_node n now = record {
  name = n;
  phase = pending;
  current_action = [];
  completed_actions = [];
  message = [];
  last_transition_time = Option.some now;
  script_pod_name = [];
  script_exit_code = none;
  script_log_tail = [];
}

abbrev pub is_pending : Phase → Bool
is_pending pending = Bool.true
is_pending _ = Bool.false

abbrev pub is_in_progress : Phase → Bool
is_in_progress in_progress = Bool.true
is_in_progress _ = Bool.false

abbrev pub is_completed : Phase → Bool
is_completed completed = Bool.true
is_completed _ = Bool.false

abbrev pub is_failed : Phase → Bool
is_failed failed = Bool.true
is_failed _ = Bool.false

abbrev pub is_terminal : Phase → Bool
is_terminal completed = Bool.true
is_terminal failed = Bool.true
is_terminal _ = Bool.false
