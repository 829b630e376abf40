-- ===== src/Examples/CommandTests.antt =====
-- The commands on a stored resource, on the small cluster.
use kluster_one.Prelude.{
  ◌≡◌, refl, ◌↔◌, true, false, List, [], ◌∷◌, none, some, ok, Option, Error, Bytes, codes,
}
use kluster_one.Prelude.Strings.{bytes_eq, lookup, insert}
use kluster_one.Api.{NodeMaintenance}
use kluster_one.Actions.{new_registry}
use kluster_one.Controller.{reconcile}
use kluster_one.Controller.Idle.{with}
use kluster_one.Manager.{manager_reconciler}
use kluster_one.Cli.Commands.Merge.{remove, merge_annotations}
use kluster_one.Cli.Clients.{new_clients}
use kluster_one.Cli.Commands.Refine.{
  Command, pause_with, run, attach_script, view, effects, commands, command, Reaches,
  commands_refine,
}
use kluster_one.Cli.Commands.Pausing.{pause_stops_reconcile, set_paused_and_back}
use kluster_one.Cli.Commands.{
  fetch, send_patch, set_paused_nm, set_paused, pause, resume_nm, resume, attach, attach_report,
  has_script, inline_of, current_reason, pause_patch, attach_patch,
}
use kluster_one.Cli.Logs.{LogsFlags, logs}
use kluster_one.Cli.Logs.Shows.{LogLaws, Shows, logs_ok}
use kluster_one.Examples.Cluster.{Cluster, toy, toy_clock, toy_resource}
use kluster_one.Examples.Fixtures.{fresh, seeded, cluster, flags, tick}
use kluster_one.Examples.RetryTests.{read_resource}
use kluster_one.Examples.Terminal.{terminal, terminal_patch}

abbrev patch_name : Bytes
patch_name = fresh.meta.name

abbrev reason : Bytes
reason = codes "kernel"

abbrev session : List Command
session = pause_with reason ∷ attach_script (codes "reboot") ∷ run ∷ []

seeded_stored : toy_resource.stored cluster patch_name ≡ some seeded
unfolding bytes_eq
seeded_stored = refl

session_fine : (commands toy terminal patch_name session cluster).0 ≡ none
unfolding bytes_eq commands command pause resume attach set_paused set_paused_nm fetch send_patch
    resume_nm has_script inline_of current_reason pause_patch attach_patch new_clients
    merge_annotations lookup remove insert attach_report
session_fine = refl

commands_refine_example :
    Reaches toy terminal terminal_patch seeded
      (effects session (view seeded))
      patch_name
      (commands toy terminal patch_name session cluster).1
commands_refine_example =
    commands_refine toy terminal terminal_patch session patch_name cluster seeded
      (refl, (refl, (tt, tt))) seeded_stored session_fine

pause_fine : (set_paused toy terminal patch_name true reason cluster).0 ≡ none
unfolding bytes_eq set_paused set_paused_nm fetch send_patch current_reason lookup
pause_fine = refl

pause_whole_fine : (pause toy terminal patch_name reason cluster).0 ≡ none
unfolding new_clients pause
pause_whole_fine = pause_fine

pause_stops_reconcile_example :
    let w' = (pause toy terminal patch_name reason cluster).1 in
    let r = manager_reconciler toy toy_clock flags in
    reconcile toy (with toy r (new_registry toy)) patch_name (tick w')
    ≡ reconcile toy r patch_name (tick w')
pause_stops_reconcile_example =
    pause_stops_reconcile toy terminal terminal_patch toy.get_nm
      (manager_reconciler toy toy_clock flags) (new_registry toy) patch_name reason cluster
      (tick (pause toy terminal patch_name reason cluster).1) seeded seeded_stored pause_whole_fine
      refl
      (λ seen got.
        read_resource patch_name (pause toy terminal patch_name reason cluster).1 seen got)

abbrev paused_cluster : Cluster
paused_cluster = (set_paused toy terminal patch_name true reason cluster).1

run_fine : (set_paused toy terminal patch_name false [] paused_cluster).0 ≡ none
unfolding bytes_eq set_paused set_paused_nm fetch send_patch current_reason lookup pause_patch
    merge_annotations insert
run_fine = refl

bare : lookup (codes "ko.io/pause-reason") seeded.meta.annotations ≡ none
unfolding lookup
bare = refl

set_paused_and_back_example :
    (nm' : NodeMaintenance) × (toy_resource.stored
        (set_paused toy terminal patch_name false [] paused_cluster).1
        patch_name
      ≡ some nm')
    × (nm'.spec ≡ seeded.spec)
    × (nm'.meta.annotations ≡ seeded.meta.annotations)
    × (nm'.status ≡ seeded.status)
set_paused_and_back_example =
    set_paused_and_back toy terminal terminal_patch patch_name reason cluster seeded seeded_stored
      refl bare pause_fine run_fine

abbrev all_logs : LogsFlags
all_logs = record { node = []; follow = false }

seeded_read : (toy.get_nm patch_name cluster).0 ≡ ok seeded
unfolding bytes_eq
seeded_read = refl

terminal_logs : LogLaws toy terminal
terminal_logs = record { copy_ends = λ ns pod c w. ((none, w), refl) }

logs_ok_example :
    (answer : Option Error × Cluster) × (logs toy terminal patch_name all_logs cluster
      ≡ some answer)
    × ((answer.0 ≡ none) ↔ Shows [] seeded.status.nodes)
logs_ok_example =
    logs_ok toy terminal terminal_logs patch_name all_logs cluster seeded seeded_read refl
