-- ===== src/Lib.antt =====
-- klusterOne: a Kubernetes operator that runs a plan of maintenance actions (Cordon, Drain, Script,
-- Uncordon) on a set of nodes, a few nodes at a time, as a NodeMaintenance resource asks for it.
--
-- The parts and how they interact. The manager (cmd/manager/main.go) registers the four actions and
-- starts the controller. Each call of the controller's Reconcile reads one resource, seeds its status
-- through the orchestrator's Init or drives it by one Step, and writes the status back. A Step admits
-- waiting nodes up to the strategy's budget, runs the next action of the plan on each node in flight, and
-- rolls the nodes' phases up into the run's. The actions change the cluster through the API server. The
-- kubectl plugin creates, patches and deletes the resources that the controller reads; push and pull wait
-- for the run and, for a file, read the ConfigMap that the Script action captured its output into.
--
-- The files:
--   Api             api/v1alpha1/nodemaintenance_types.go: the resource; Api.Targets and Api.Columns the
--                   targets column (SummarizeTargets, truncateForColumn), Api.Schema the markers that the
--                   API server validates
--   Kube            the API server and the clock, a record of operations on a state of the world
--   Actions         internal/actions/action.go: Register and Get; Actions.Contract what the orchestrator
--                   relies on of an action, Actions.Lookup the registry as a map
--   Actions.Cordon  internal/actions/cordon.go and uncordon.go
--   Actions.Drain   internal/actions/drain.go: Execute is drain_execute, podsToEvict, evict and the helpers
--                   keep their names
--   Actions.Names   internal/actions/script.go: runnerPodName and sanitizeLabel
--   Actions.Script  internal/actions/script.go: Execute is script_execute; the ConfigMaps are in
--                   ConfigMaps, buildPod and ensurePod in RunnerPod
--   Orchestrator    internal/orchestrator/orchestrator.go: Init, Step, initStatus, resolveNodes, admit,
--                   runActions, rollup; advanceNode, failNode and the loops are in Orchestrator.Nodes
--   Controller      internal/controller/nodemaintenance_controller.go: Reconcile, pausedRequeue and the
--                   default of SetupWithManager; Controller.Retry is about passes whose calls fail
--   Manager         cmd/manager/main.go: the registry and the reconciler; init and main, with what they
--                   call of the libraries, are in Manager.Main
--   Cli             the kubectl plugin. Cli.Main is cmd/kubectl-nm/main.go; Cli.Args
--                   internal/cli/argparse.go, Cli.Clients internal/cli/clients.go; Cli.Create
--                   internal/cli/create.go, with RunCreate and applyNM in Cli.Create.Apply;
--                   Cli.Commands internal/cli/attach_run.go (setPaused is set_paused; RunPause, RunRun
--                   and RunAttach behind their flags are pause, resume and attach);
--                   Cli.Copy internal/cli/copy.go, with push and pull in Push and Pull, extractPayload in
--                   Cli.Payload, where a panic is `none`, and waitForNMCompletion in Cli.Wait; Cli.Status,
--                   Cli.Logs and Cli.Format internal/cli/status_logs.go
--   Cli.Plugin      what the plugin calls outside the repository, a record of operations on the same world
--   Examples        a small concrete cluster on which the code is run
--   Prelude         Go strings, errors and integers, lists, sorting
--
-- State. The world of Kube is opaque: each call takes it and gives the next one, so that a call may answer
-- anything, and where a proof relies on documented behaviour it says so in a record: ClockLaws (no call
-- turns the clock back and a wait lasts), NodeLaws (reads and merge patches of nodes), ConfigMapLaws,
-- ResourceLaws (reads and status updates of the resource, where they succeed), FlakyLaws (the same where
-- they may fail, with the server's test of the resource version), Apart (a call about nodes, pods or
-- ConfigMaps writes none of the resources), PatchLaws and ApplyLaws (merge patches, creations and updates
-- of the resource), Base64Laws, LogLaws (a log that is not followed ends), Ledger (a record of the calls of
-- the Eviction API), KeepsProgress (an action leaves the node's progress alone). The controller reads the
-- resource from its cache: FlakyLaws and `cached` allow for an old copy. Texts go through package
-- encoding/json, which replaces the bytes that are not valid UTF-8 (json_text); ApplyLaws say what that does
-- to a resource that is created. The resource is passed along where the code changes it through a pointer.
--
-- Fuel. The polling loops of Drain, Script and the plugin's wait run on fuel. With a timeout of t
-- nanoseconds t + 2 rounds are enough, since a poll interval is at least one nanosecond, and the actions in
-- the registry, push and pull take that. Everything else is structural recursion. The int32 counters of the
-- summary and the product of seconds and time.Second wrap around as in Go. `logs -f` may follow a log without
-- an end, which is `none`.
--
-- Not modelled: the generated deep copies, log lines, the parsing of flags (package flag), what a shell
-- makes of the scripts of push and pull, and the controller-runtime's own loop. `quote`, `show_duration` and
-- the lower case beyond ASCII are parameters, from the packages fmt, time and unicode, and so are base64,
-- hex, YAML, random bytes and files. The client library's errors are a reason and a text.
pub mod Prelude
pub mod Api
pub mod Kube
pub mod Actions
pub mod Orchestrator
pub mod Controller
pub mod Manager
pub mod Cli
mod Examples
