-- ===== src/Cli/Logs.antt =====
-- internal/cli/status_logs.go: `RunLogs`.
pub mod Shows
use kluster_one.Prelude.{
  ◌≡◌, ◌<◌, ◌==◌, ◌↔◌, inl, inr, Bool, true, false, not, ◌&&◌, ◌||◌, List, [], ◌∷◌, ◌++◌, Option,
  none, some, Result, ok, err, Error, errorf, wrap, Bytes, codes, arith, if◌then◌else◌,
  is_not_found, count_if, Bool-cases,
}
use kluster_one.Prelude.Strings.{bytes_eq}
use kluster_one.Api.{NodeMaintenance, NodeStatus}
use kluster_one.Kube.{Kube}
use kluster_one.Cli.Args.{is_empty, has_help_flag, named_args, runner_ns}
use kluster_one.Cli.Clients.{new_clients}
use kluster_one.Cli.Plugin.{Plugin}
use kluster_one.Cli.Format.{or_dash}
use kluster_one.Cli.Wait.{phase_name}

pub record LogsFlags : Type 0 where
  pub node : Bytes
  pub follow : Bool

-- The node is asked for, and a pod or a tail of its logs is recorded.
unfoldable pub has_logs : Bytes → NodeStatus → Bool
unfolding bytes_eq
has_logs node ns =
    (is_empty node || bytes_eq ns.name node)
    && (not (is_empty ns.script_pod_name) || not (is_empty ns.script_log_tail))

abbrev pod_line : NodeStatus → Bytes
pod_line ns =
    codes "==> "
    ++ (ns.name
        ++ (codes " (pod "
            ++ (runner_ns ++ (codes "/" ++ (ns.script_pod_name ++ codes ") <==\n")))))

module _ (K : Kube) (P : Plugin K) where
  open K use {World, get_nm}
  open P use {print, warn, usage, open_log, copy_log}

  unfoldable pub stream_pod_logs : Bytes → Bytes → Bool → World → Option (Option Error × World)
  stream_pod_logs ns name follow w =
      let (e, w') = open_log ns name (codes "run") follow w in
      elim e [ some e ↦ some (some e, w') | none ↦ copy_log w' ]

  abbrev tail_line : NodeStatus → World → World
  tail_line ns w = print (ns.script_log_tail ++ codes "\n") w

  -- What is said of the error of the stream.
  after_stream : NodeStatus → Option Error → World → World
  unfolding or_dash
  after_stream ns none w = w
  after_stream ns (some e) w =
      if is_not_found e && not (is_empty ns.script_log_tail)
      then warn
          (codes
            "  (runner pod was garbage-collected; showing log tail captured in status. Run the controller with --runner-keep-pods to retain the pod for live `kubectl logs`.)\n")
          (tail_line ns w)
      else if is_not_found e
      then warn
          (codes "  (runner pod "
            ++ (ns.script_pod_name
                ++ (codes " no longer exists and no log tail was captured; node phase="
                    ++ (or_dash (phase_name ns.phase) ++ codes ")\n"))))
          w
      else warn (codes "  (logs error: " ++ (e.text ++ codes ")\n")) w

  -- The body of the loop, for a node that has logs.
  show_node : Bool → NodeStatus → World → Option World
  unfolding after_stream
  show_node follow ns w =
      if is_empty ns.script_pod_name
      then some (
          tail_line ns
            (print (codes "==> " ++ (ns.name ++ codes " (no runner pod recorded) <==\n")) w))
      else let w' = print (pod_line ns) w in
        elim (stream_pod_logs runner_ns ns.script_pod_name follow w') [
          | none ↦ none
          | some (e, w'') ↦ some (after_stream ns e w'')
        ]

  -- The loop, with the value of `any`.
  logs_loop : LogsFlags → List NodeStatus → Bool → World → Option (Bool × World)
  unfolding has_logs show_node
  logs_loop f [] any w = some (any, w)
  logs_loop f (ns ∷ more) any w =
      let shown = has_logs f.node ns in
      elim (if shown then show_node f.follow ns w else some w) [
        | none ↦ none
        | some w' ↦ logs_loop f more (shown || any) w'
      ]

  -- `RunLogs` behind its flags and clients; `none` if it follows a log that never ends.
  unfoldable pub logs : Bytes → LogsFlags → World → Option (Option Error × World)
  unfolding logs_loop
  logs name f w =
      let (r, w') = get_nm name w in
      elim r [
        | err e ↦ some (some (wrap (codes "get nm/" ++ name) e), w')
        | ok nm ↦ elim (logs_loop f nm.status.nodes false w') [
          | none ↦ none
          | some (any, w'') ↦ some (
            if any then none else some (errorf (codes "no runner pod found in status (yet)")),
            w'',
          )
        ]
      ]

  unfoldable pub run_logs :
      (List Bytes → World → Result LogsFlags × World)
      → List Bytes
      → World
      → Option (Option Error × World)
  unfolding has_help_flag named_args
  run_logs parse args w =
      let (r, w₁) = named_args K parse (codes "logs") args w in
      let (e, w₂) = new_clients K P w₁ in
      if has_help_flag args then some (none, usage (codes "logs") w) else elim r [
        | err e ↦ some (some e, w₁)
        | ok (name, f) ↦ elim e [ some e ↦ some (some e, w₂) | none ↦ logs name f w₂ ]
      ]
