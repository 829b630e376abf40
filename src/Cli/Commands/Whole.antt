-- ===== src/Cli/Commands/Whole.antt =====
-- internal/cli/attach_run.go: what pause, run and attach leave stored, with their clients and reads.
use kluster_one.Prelude.{
  ◌≡◌, ◌∙◌, inl, inr, true, false, [], none, some, Bytes, arith, ltb, length, Bool-cases,
  Option-cases,
}
use kluster_one.Api.{NodeMaintenance, is_in_progress, is_terminal}
use kluster_one.Kube.{Kube}
use kluster_one.Cli.Clients.{new_clients}
use kluster_one.Cli.Plugin.{Plugin}
use kluster_one.Cli.Commands.Merge.{new_clients_keeps, PatchLaws, Merged}
use kluster_one.Cli.Commands.{
  attach_patch, marshal_patch, fetch, pause, has_script, resume_nm, resume, attach, attach_report,
  max_inline_script_bytes,
}
use kluster_one.Cli.Commands.Stores.{
  PausedAs, Leads, fetch_stored, send_patch-Merged, set_paused-PausedAs,
}

module _ (K : Kube) (P : Plugin K) (laws : PatchLaws K P) where
  open K use {World, get_nm}
  open P use {print, warn, patch_nm}
  open laws.resource use {stored}

  -- `RunPause` behind its flags.
  pub pause-PausedAs :
      (name reason : Bytes) (w : World) (nm : NodeMaintenance)
      → stored w name ≡ some nm
      → (pause K P name reason w).0 ≡ none
      → Leads K P laws (PausedAs P.json_text true reason nm) name (pause K P name reason w).1
  unfolding pause
  pause-PausedAs name reason w nm h fine = elim (Option-cases (new_clients K P w).0) [
    | inr (e, failing) ↦ absurd (ground (arith, failing))
    | inl connected ↦
        let (nm', there, so) =
          set_paused-PausedAs K P laws name true reason (new_clients K P w).1 nm
            (new_clients_keeps K P laws name w ∙ h) (rw (connected, pause) at fine) in
        (nm', rw (pause, connected) there, so)
  ]

  -- `RunRun` behind its flags goes through only with a script.
  pub resume-PausedAs :
      (name : Bytes) (w : World) (nm : NodeMaintenance)
      → stored w name ≡ some nm
      → (resume K P name w).0 ≡ none
      → (has_script nm ≡ true)
        × Leads K P laws (PausedAs P.json_text false [] nm) name (resume K P name w).1
  unfolding resume resume_nm
  resume-PausedAs name w nm h fine = elim (Option-cases (new_clients K P w).0) [
    | inr (e, failing) ↦ absurd (ground (arith, failing))
    | inl connected ↦
        let w₁ = (new_clients K P w).1 in
        let (got, kept) =
          fetch_stored K P laws name w₁ nm (new_clients_keeps K P laws name w ∙ h) in
        elim (Bool-cases (has_script nm)) [
          | inr bare ↦ absurd (ground (arith, connected, got, bare))
          | inl scripted ↦
              let (nm', there, so) =
                set_paused-PausedAs K P laws name false [] (fetch K P name w₁).1 nm kept
                  (rw (connected, got, scripted, resume, resume_nm) at fine) in
              (scripted, (nm', rw (resume, connected, got, resume_nm, scripted) there, so))
        ]
  ]

  attach_report_keeps :
      (name body : Bytes) (nm : NodeMaintenance) (w : World)
      → stored (attach_report K P name body nm w) name ≡ stored w name
  unfolding attach_report
  attach_report_keeps name body nm w = elim (Bool-cases nm.spec.paused) [
    | inl held ↦ rw (attach_report, held) (laws.print_keeps _ name _ ∙ laws.print_keeps _ name w)
    | inr active ↦ elim (Bool-cases (is_in_progress nm.status.phase)) [
      | inl running ↦
          rw (attach_report, active, running) (laws.warn_keeps _ name _ ∙ laws.print_keeps _ name w)
      | inr idle ↦ elim (Bool-cases (is_terminal nm.status.phase)) [
        | inl done ↦
            rw (attach_report, active, idle, done)
              (laws.warn_keeps _ name _ ∙ laws.print_keeps _ name w)
        | inr waiting ↦ rw (attach_report, active, idle, waiting) (laws.print_keeps _ name w)
      ]
    ]
  ]

  -- `RunAttach` behind the reading of the file.
  pub attach-Merged :
      (name body : Bytes) (w : World) (nm : NodeMaintenance)
      → stored w name ≡ some nm
      → (attach K P name body w).0 ≡ none
      → (ltb max_inline_script_bytes (length body) ≡ false)
        × Leads K P laws
            (Merged (marshal_patch K P (attach_patch body)) nm)
            name
            (attach K P name body w).1
  unfolding attach
  attach-Merged name body w nm h fine =
      elim (Bool-cases (ltb max_inline_script_bytes (length body))) [
        | inl large ↦ absurd (ground (arith, large))
        | inr fits ↦ elim (Option-cases (new_clients K P w).0) [
          | inr (e, failing) ↦ absurd (ground (arith, fits, failing))
          | inl connected ↦
              let w₁ = (new_clients K P w).1 in
              let (got, kept) =
                fetch_stored K P laws name w₁ nm (new_clients_keeps K P laws name w ∙ h) in
              let (nm', there, so) =
                send_patch-Merged K P laws name (attach_patch body) (attach_report K P name body nm)
                  (fetch K P name w₁).1 nm (attach_report_keeps name body nm) kept
                  (rw (fits, connected, got, attach) at fine) in
              (fits, (nm', rw (attach, fits, connected, got) there, so))
        ]
      ]
