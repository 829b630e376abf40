-- ===== src/Cli/Status.antt =====
-- internal/cli/status_logs.go: `RunStatus`.
use kluster_one.Prelude.{
  ℕ, Bool, true, false, List, [], ◌∷◌, ◌++◌, Option, none, some, Result, ok, err, Error, errorf,
  Bytes, codes, if◌then◌else◌, is_not_found,
}
use kluster_one.Prelude.Strings.{join, show_ℤ}
use kluster_one.Api.{NodeMaintenance, NodeStatus}
use kluster_one.Kube.{Kube}
use kluster_one.Cli.Args.{is_empty, has_help_flag, named_args}
use kluster_one.Cli.Clients.{new_clients}
use kluster_one.Cli.Plugin.{Plugin}
use kluster_one.Cli.Commands.{current_reason}
use kluster_one.Cli.Format.{or_dash, truncate}
use kluster_one.Cli.Wait.{phase_name}

abbrev newline : Bytes
newline = 10 ∷ []

abbrev tab : Bytes
tab = 9 ∷ []

-- `%v`
abbrev show_bool : Bool → Bytes
show_bool true = codes "true"
show_bool false = codes "false"

-- `exitStr`
abbrev exit_text : NodeStatus → Bytes
exit_text ns = elim ns.script_exit_code [ none ↦ codes "-" | some c ↦ show_ℤ c ]

-- A row of the table.
status_row : NodeStatus → Bytes
unfolding or_dash truncate
status_row ns =
    join
      (ns.name
        ∷ or_dash (phase_name ns.phase)
        ∷ or_dash ns.current_action
        ∷ join ns.completed_actions (codes ",")
        ∷ exit_text ns
        ∷ truncate ns.message 60
        ∷ [])
      tab
    ++ newline

status_rows : List NodeStatus → Bytes
unfolding status_row
status_rows [] = []
status_rows (ns ∷ more) = status_row ns ++ status_rows more

-- A line that is printed if the text is not empty.
abbrev optional_line : Bytes → Bytes → Bytes
optional_line label text = if is_empty text then [] else label ++ (text ++ newline)

module _ (K : Kube) (P : Plugin K) where
  open K use {World, get_nm, quote}
  open P use {print, print_table, show_time, usage}

  abbrev time_text : Option ℕ → Bytes
  time_text none = []
  time_text (some t) = show_time t

  -- The lines above the table.
  status_head : Bytes → NodeMaintenance → Bytes
  unfolding current_reason or_dash
  status_head name nm =
      codes "Name:           "
      ++ (name
          ++ (codes "\nPhase:          "
              ++ (or_dash (phase_name nm.status.phase)
                  ++ (codes "\nPaused:         "
                      ++ (show_bool nm.spec.paused
                          ++ (newline
                              ++ (optional_line (codes "PauseReason:    ") (current_reason nm)
                                  ++ (optional_line (codes "StartTime:      ")
                                        (time_text nm.status.start_time)
                                      ++ optional_line (codes "CompletionTime: ")
                                          (time_text nm.status.completion_time)))))))))

  status_nm : Bytes → NodeMaintenance → World → Option Error × World
  unfolding status_head status_rows
  status_nm name nm w =
      let w' = print (status_head name nm) w in
      elim nm.status.nodes [
        | [] ↦ (none, print (codes "\n(no per-node status yet)\n") w')
        | _ ∷ _ ↦
            print_table
              (codes "NODE\tPHASE\tACTION\tCOMPLETED\tEXIT\tMESSAGE\n"
                ++ status_rows nm.status.nodes)
              (print newline w')
      ]

  -- `RunStatus` behind its flags and clients.
  unfoldable pub status : Bytes → World → Option Error × World
  unfolding status_nm
  status name w =
      let (r, w') = get_nm name w in
      elim r [
        | ok nm ↦ status_nm name nm w'
        | err e ↦ (
          some (
              if is_not_found e
              then errorf (codes "nodemaintenance " ++ (quote name ++ codes " not found"))
              else e),
          w',
        )
      ]

  unfoldable pub run_status :
      (List Bytes → World → Result (Unit {0}) × World) → List Bytes → World → Option Error × World
  unfolding has_help_flag named_args
  run_status parse args w =
      let (r, w₁) = named_args K parse (codes "status") args w in
      let (e, w₂) = new_clients K P w₁ in
      if has_help_flag args then (none, usage (codes "status") w) else elim r [
        | err e ↦ (some e, w₁)
        | ok (name, _) ↦ elim e [ some e ↦ (some e, w₂) | none ↦ status name w₂ ]
      ]
