-- ===== src/Actions/Script.antt =====
-- internal/actions/script.go: `Script.Execute` and what it calls. The polling loop runs on fuel, the time
-- that is left; `none` means that the fuel ran out.
pub mod ConfigMaps
pub mod RunnerPod
pub mod Waiting
pub mod Outcome
pub mod Success
pub mod Ownership
pub mod Apart
pub mod Stored
use kluster_one.Prelude.{
  ℕ, zero, suc, Bool, true, false, List, [], ◌∷◌, ◌++◌, Option, none, some, Result, ok, err, Error,
  errorf, wrap, Bytes, codes, if◌then◌else◌,
}
use kluster_one.Prelude.Int.{ℤ, pos, ltb_ℤ, ◌+ℤ◌, seconds}
use kluster_one.Prelude.Strings.{bytes_eq, lookup, show_ℤ}
use kluster_one.Prelude.Spaces.{trim_space}
use kluster_one.Api.{NodeMaintenance, ScriptSpec, NodeStatus, ActionSpec}
use kluster_one.Kube.{Kube, Node, Pod, PodPhase, ContainerStatus}
use kluster_one.Actions.Names.{runner_pod_name}
use ConfigMaps.{ensure_script_config_map, capture_output}
use RunnerPod.{Script, ensure_pod}

abbrev pub annot_output_cm : Bytes
annot_output_cm = codes "ko.io/output-configmap"

-- `string(phase)`
unfoldable pub pod_phase_name : PodPhase → Bytes
pod_phase_name PodPhase.succeeded = codes "Succeeded"
pod_phase_name PodPhase.failed = codes "Failed"
pod_phase_name (PodPhase.other_phase s) = s

-- The loop of `containerExitCode`: the first terminated container named "run".
unfoldable pub container_exit_code : List ContainerStatus → Option ℤ
container_exit_code [] = none
container_exit_code (cs ∷ rest) =
    let later = container_exit_code rest in
    if bytes_eq cs.name (codes "run")
    then elim cs.terminated [ some code ↦ some code | none ↦ later ]
    else later

unfoldable pub exit_str : Option ℤ → Bytes
exit_str none = codes "?"
exit_str (some code) = show_ℤ code

-- `timeout` and `poll` of `Execute`, in nanoseconds.
unfoldable pub script_timeout : ScriptSpec → ℤ
script_timeout script = elim script.timeout_seconds [
  | none ↦ pos 600000000000
  | some t ↦ if ltb_ℤ (pos 0) t then seconds t else pos 600000000000
]

unfoldable pub script_poll : Script → ℤ
script_poll s = if ltb_ℤ (pos 0) s.poll_interval then s.poll_interval else pos 5000000000

unfoldable pub log_tail_limit : Script → ℤ
log_tail_limit s = if ltb_ℤ (pos 0) s.log_tail_bytes then s.log_tail_bytes else pos 4096

abbrev is_terminal_pod : PodPhase → Bool
is_terminal_pod PodPhase.succeeded = true
is_terminal_pod PodPhase.failed = true
is_terminal_pod (PodPhase.other_phase _) = false

module _ (K : Kube) where
  open K use {World, now, wait, get_pod, delete_pod, get_logs, quote, show_duration}

  unfoldable pub wait_for_pod : ℕ → Bytes → Bytes → ℤ → ℤ → ℤ → World → Option (Result Pod × World)
  wait_for_pod zero ns name poll timeout deadline w = none
  wait_for_pod (suc fuel) ns name poll timeout deadline w =
      let (r, w₁) = get_pod ns name w in
      let (cancelled, w₂) = wait poll w₁ in
      let rest = wait_for_pod fuel ns name poll timeout deadline w₂ in
      elim r [
        | err e ↦ some (err e, w₁)
        | ok p ↦
            if is_terminal_pod p.phase
            then some (ok p, w₁)
            else if ltb_ℤ deadline (pos (now w₁))
            then some (
              err (
                  errorf (
                    codes "timed out after "
                    ++ (show_duration timeout
                        ++ (codes " in phase " ++ quote (pod_phase_name p.phase))))),
              w₁,
            )
            else elim cancelled [ some e ↦ some (err e, w₂) | none ↦ rest ]
      ]

  unfoldable pub tail_logs : Script → Pod → World → Bytes × World
  tail_logs s pod w =
      let (r, w') = get_logs pod.ns pod.name (codes "run") (log_tail_limit s) w in
      elim r [
        | err e ↦ (codes "(no logs: " ++ (e.text ++ codes ")"), w')
        | ok read ↦ elim read [
          | err e ↦ (codes "(log read error: " ++ (e.text ++ codes ")"), w')
          | ok body ↦ (trim_space body, w')
        ]
      ]

  -- The error of the deletion is dropped.
  unfoldable pub gc_pod : Script → Pod → World → World
  gc_pod s pod w = if s.keep_pods then w else delete_pod pod.ns pod.name w

  -- The `switch` on the phase of the terminal pod: the error that `Execute` returns.
  unfoldable pub phase_error : PodPhase → Option ℤ → Bytes → Option Error
  phase_error PodPhase.succeeded exit tail = none
  phase_error PodPhase.failed exit tail =
      some (errorf (codes "script failed (exit=" ++ (exit_str exit ++ (codes "): " ++ tail))))
  phase_error (PodPhase.other_phase s) exit tail =
      some (errorf (codes "runner pod in unexpected phase " ++ quote s))

  -- What `Execute` writes into the status about the pod that ended.
  unfoldable pub stamp_outcome : NodeStatus → Option ℤ → Bytes → NodeStatus
  stamp_outcome ns exit tail =
      let ns' : NodeStatus = elim exit [
        | none ↦ ns
        | some code ↦ record ns { script_exit_code = some code }
      ] in
      elim tail [ [] ↦ ns' | c ∷ rest ↦ record ns' { script_log_tail = c ∷ rest } ]

  -- The annotation that asks for the output, the empty string if it is missing.
  abbrev output_cm : NodeMaintenance → Bytes
  output_cm nm = elim (lookup annot_output_cm nm.meta.annotations) [ none ↦ [] | some v ↦ v ]

  -- `Execute` behind `waitForPod`.
  unfoldable pub finish :
      Script → NodeMaintenance → Pod → NodeStatus → World → NodeStatus × Option Error × World
  unfolding gc_pod phase_error stamp_outcome
  finish s nm terminal ns w =
      let exit = container_exit_code terminal.container_statuses in
      let (tail, w₁) = tail_logs s terminal w in
      let ns' = stamp_outcome ns exit tail in
      let verdict = phase_error terminal.phase exit tail in
      let (ce, w₂) = capture_output K nm s.runner_namespace (output_cm nm) terminal w₁ in
      elim (output_cm nm) [
        | [] ↦ (ns', verdict, gc_pod s terminal w₁)
        | _ ∷ _ ↦ elim ce [
          | some e ↦ (
            ns',
            some (wrap (codes "capture output to configmap " ++ output_cm nm) e),
            gc_pod s terminal w₂,
          )
          | none ↦ (ns', verdict, gc_pod s terminal w₂)
        ]
      ]

  -- `Execute` behind the pod that is there.
  unfoldable pub await_pod :
      Script
      → ℕ
      → NodeMaintenance
      → ScriptSpec
      → Pod
      → NodeStatus
      → World
      → Option (NodeStatus × Option Error × World)
  await_pod s fuel nm script pod ns w =
      let timeout = script_timeout script in
      elim (wait_for_pod fuel pod.ns pod.name (script_poll s) timeout (pos (now w) +ℤ timeout) w) [
        | none ↦ none
        | some (r, w') ↦ elim r [
          | err e ↦
              some (
                ns,
                some (wrap (codes "wait for pod " ++ (pod.ns ++ (codes "/" ++ pod.name))) e),
                w',
              )
          | ok terminal ↦ some (finish s nm terminal ns w')
        ]
      ]

  -- `Execute` behind its test of `spec.script`.
  unfoldable pub run_script :
      Script
      → ℕ
      → NodeMaintenance
      → ScriptSpec
      → Node
      → NodeStatus
      → World
      → Option (NodeStatus × Option Error × World)
  run_script s fuel nm script node ns w =
      let (r, w₁) = ensure_script_config_map K nm script s.runner_namespace w in
      elim r [
        | err e ↦ some (ns, some (wrap (codes "prepare script configmap") e), w₁)
        | ok (cm_name, cm_key) ↦
            let pod_name = runner_pod_name K.lower_rune nm.meta.name node.name in
            let ns' = record ns { script_pod_name = pod_name } in
            let (p, w₂) = ensure_pod K s nm script node pod_name cm_name cm_key w₁ in
            elim p [
              | err e ↦ some (ns', some (wrap (codes "create runner pod") e), w₂)
              | ok pod ↦ await_pod s fuel nm script pod ns' w₂
            ]
      ]

  -- `Execute`, with fuel for the polling loop.
  unfoldable pub script_execute :
      Script
      → ℕ
      → NodeMaintenance
      → Node
      → NodeStatus
      → World
      → Option (NodeStatus × Option Error × World)
  script_execute s fuel nm node ns w = elim nm.spec.script [
    | none ↦ some (ns, some (errorf (codes "spec.script is required for the Script action")), w)
    | some script ↦ run_script s fuel nm script node ns w
  ]
