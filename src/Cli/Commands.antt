-- ===== src/Cli/Commands.antt =====
-- internal/cli/attach_run.go: the commands that change a resource that is there: attach, run and pause.
pub mod Entry
pub mod Merge
pub mod Stores
pub mod Whole
pub mod Refine
pub mod Pausing
use kluster_one.Prelude.{
  ℕ, ◌*◌, Bool, true, false, not, ◌&&◌, ◌||◌, List, [], ◌∷◌, ◌++◌, map, Option, none, some, Result,
  ok, err, Error, errorf, wrap, Bytes, codes, ltb, if◌then◌else◌, length, is_not_found,
}
use kluster_one.Prelude.Strings.{bytes_eq, lookup, decimal}
use kluster_one.Api.{NodeMaintenance, is_in_progress, is_terminal}
use kluster_one.Kube.{Kube}
use kluster_one.Cli.Args.{is_empty, has_help_flag, named_args}
use kluster_one.Cli.Clients.{new_clients}
use kluster_one.Cli.Plugin.{Plugin, MergePatch}
use kluster_one.Cli.Wait.{phase_name}

abbrev pub pause_reason_annotation : Bytes
pause_reason_annotation = codes "ko.io/pause-reason"

abbrev pub max_inline_script_bytes : ℕ
max_inline_script_bytes = 900 * 1024

-- `spec.script.inline`, the empty string if it is not there.
unfoldable pub inline_of : NodeMaintenance → Bytes
inline_of nm = elim nm.spec.script [ none ↦ [] | some s ↦ s.inline ]

unfoldable pub has_script : NodeMaintenance → Bool
unfolding inline_of
has_script nm = not (is_empty (inline_of nm))

-- `u.GetAnnotations()[pauseReasonAnnotation]`
unfoldable pub current_reason : NodeMaintenance → Bytes
current_reason nm = elim (lookup pause_reason_annotation nm.meta.annotations) [
  | none ↦ []
  | some r ↦ r
]

abbrev pub bool_eq : Bool → Bool → Bool
bool_eq true b = b
bool_eq false b = not b

abbrev pub resource_line : Bytes → Bytes → Bytes
resource_line name rest =
    codes "nodemaintenance.ko.io/" ++ (name ++ (codes " " ++ (rest ++ codes "\n")))

-- The lines of `setPaused`, with the word "already" or without it.
unfoldable pub pause_line : Bytes → Bytes → Bool → Bytes → Bytes → Bytes
pause_line name already false reason running = resource_line name (already ++ running)
pause_line name already true reason running = resource_line name (
    if is_empty reason
    then already ++ codes "paused"
    else already ++ (codes "paused (reason: " ++ (reason ++ codes ")")))

-- The patch of `setPaused`: no reason is a null.
unfoldable pub pause_patch : Bool → Bytes → MergePatch
pause_patch paused desired = record {
  annotations = (pause_reason_annotation, if is_empty desired then none else some desired) ∷ [];
  paused = some paused;
  inline = none;
}

-- The patch of `RunAttach`.
unfoldable pub attach_patch : Bytes → MergePatch
attach_patch body = record { annotations = []; paused = none; inline = some body }

unfoldable pub too_large : Bytes → Error
too_large body = errorf (
    codes "script too large: "
    ++ (decimal (length body)
        ++ (codes " bytes (limit "
            ++ (decimal max_inline_script_bytes
                ++ codes
                    "). Inline scripts must fit in a single ConfigMap; split the work across multiple NMs or fetch a larger payload from inside the script."))))

module _ (K : Kube) (P : Plugin K) where
  open K use {World, get_nm, quote}
  open P use {print, warn, usage, read_file, patch_nm, json_text}

  abbrev pub json_value : Option Bytes → Option Bytes
  json_value none = none
  json_value (some t) = some (json_text t)

  -- The read that each of the commands begins with, and its errors.
  unfoldable pub fetch : Bytes → World → Result NodeMaintenance × World
  fetch name w =
      let (r, w') = get_nm name w in
      elim r [
        | ok nm ↦ (ok nm, w')
        | err e ↦ (
          err (
              if is_not_found e
              then errorf (codes "nodemaintenance " ++ (quote name ++ codes " not found"))
              else wrap (codes "get nm/" ++ name) e),
          w',
        )
      ]

  -- `json.Marshal` on a patch; the keys of its annotations are constants.
  unfoldable pub marshal_patch : MergePatch → MergePatch
  marshal_patch p = record {
    annotations = map (λ a. (a.0, json_value a.1)) p.annotations;
    paused = p.paused;
    inline = json_value p.inline;
  }

  -- Sends a patch; if it succeeds, goes on with `next`.
  unfoldable pub send_patch : Bytes → MergePatch → (World → World) → World → Option Error × World
  unfolding marshal_patch
  send_patch name patch next w =
      let (e, w') = patch_nm name (marshal_patch patch) w in
      elim e [ some e ↦ (some (wrap (codes "patch nm/" ++ name) e), w') | none ↦ (none, next w') ]

  -- `setPaused` behind its read.
  unfoldable pub set_paused_nm :
      Bytes → Bool → Bytes → NodeMaintenance → World → Option Error × World
  unfolding pause_line pause_patch current_reason
  set_paused_nm name paused reason nm w =
      let current = current_reason nm in
      let desired = if paused then reason else [] in
      if bool_eq nm.spec.paused paused && bytes_eq current desired
      then (none, print (pause_line name (codes "already ") paused current (codes "running")) w)
      else send_patch name (pause_patch paused desired)
          (print (pause_line name [] paused desired (codes "unpaused"))) w

  unfoldable pub set_paused : Bytes → Bool → Bytes → World → Option Error × World
  set_paused name paused reason w =
      let (r, w') = fetch name w in
      elim r [ err e ↦ (some e, w') | ok nm ↦ set_paused_nm name paused reason nm w' ]

  -- `RunPause` behind its flags.
  unfoldable pub pause : Bytes → Bytes → World → Option Error × World
  pause name reason w =
      let (e, w') = new_clients K P w in
      elim e [ some e ↦ (some e, w') | none ↦ set_paused name true reason w' ]

  -- `RunRun` behind its read: it reads once more in `setPaused`.
  unfoldable pub resume_nm : Bytes → NodeMaintenance → World → Option Error × World
  unfolding has_script
  resume_nm name nm w = if has_script nm then set_paused name false [] w else (
    some (
        errorf (
          codes "nodemaintenance "
          ++ (quote name
              ++ (codes " has no script attached. Provide one with:\n  kubectl nm attach "
                  ++ (name ++ codes " <script-path>"))))),
    w,
  )

  -- `RunRun` behind its flags.
  unfoldable pub resume : Bytes → World → Option Error × World
  resume name w =
      let (e, w₁) = new_clients K P w in
      let (r, w₂) = fetch name w₁ in
      elim e [
        | some e ↦ (some e, w₁)
        | none ↦ elim r [ err e ↦ (some e, w₂) | ok nm ↦ resume_nm name nm w₂ ]
      ]

  -- What `RunAttach` says after its patch.
  unfoldable pub attach_report : Bytes → Bytes → NodeMaintenance → World → World
  attach_report name body nm w =
      let phase = nm.status.phase in
      let w' =
        print
          (resource_line name
            (codes "script updated (" ++ (decimal (length body) ++ codes " bytes)")))
          w in
      if nm.spec.paused
      then print
          (codes "  next: kubectl nm run "
            ++ (name ++ codes "   # NM is paused; the new script will apply on resume\n"))
          w'
      else if is_in_progress phase
      then warn
          (codes
              "  warning: NM is in phase InProgress. Nodes already executing the Script action finish with the old body; pending nodes pick up the new one. Use `kubectl nm pause "
            ++ (name ++ codes "` first if you want a clean cutover.\n"))
          w'
      else if is_terminal phase
      then warn
          (codes "  note: NM has already finished (phase="
            ++ (phase_name phase
                ++ codes
                    "); the new script will not run. Create a new NM or delete this one and re-create.\n"))
          w'
      else w'

  -- `RunAttach` behind the reading of the file.
  unfoldable pub attach : Bytes → Bytes → World → Option Error × World
  unfolding too_large attach_patch
  attach name body w =
      let (e, w₁) = new_clients K P w in
      let (r, w₂) = fetch name w₁ in
      if ltb max_inline_script_bytes (length body) then (some (too_large body), w) else elim e [
        | some e ↦ (some e, w₁)
        | none ↦ elim r [
          | err e ↦ (some e, w₂)
          | ok nm ↦ send_patch name (attach_patch body) (attach_report name body nm) w₂
        ]
      ]
