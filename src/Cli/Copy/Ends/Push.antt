-- ===== src/Cli/Copy/Ends/Push.antt =====
-- internal/cli/copy.go: how `push` ends.
use kluster_one.Prelude.{
  ◌≡◌, ◌≢◌, refl, ◌⊎◌, inl, inr, Bool, false, not, ◌&&◌, [], Option, none, some, Error, Bytes,
  codes, arith, ltb, length, Bool-cases, Option-cases, Result-cases,
}
use kluster_one.Prelude.Int.{ℤ, whole_seconds}
use kluster_one.Kube.{Kube}
use kluster_one.Actions.Drain.Clock.{ClockLaws}
use kluster_one.Cli.Args.{is_empty}
use kluster_one.Cli.Payload.{has_prefix}
use kluster_one.Cli.Clients.{new_clients}
use kluster_one.Cli.Plugin.{Plugin, FileInfo}
use kluster_one.Cli.Wait.{ReadCompleted}
use kluster_one.Cli.Copy.{CopyTargets, PushFlags, ended, max_copy_bytes, await, create_copy_nm}
use kluster_one.Cli.Copy.Push.{report_copy, after_copy, run_copy_nm, push_body, push_file, push}
use kluster_one.Cli.Copy.Ends.{EndsWell, Named, finished, await_ends, EndsWell-ended}

module _ (K : Kube) (P : Plugin K) (clock : ClockLaws K) where
  open K use {World, get_config_map}
  open P use {stat, read_file, decode_base64}

  report_copy-EndsWell :
      (wanted name : Bytes) (keep : Bool) (e : Option Error) (w : World)
      → Named K P clock wanted name
      → (e ≢ none) ⊎ ReadCompleted K name
      → let (e', w') = report_copy K P name keep (e, w) in EndsWell K P clock wanted (ended e' w')
  unfolding report_copy
  report_copy-EndsWell wanted name keep (some e) w named read = tt
  report_copy-EndsWell wanted name keep none w named (inl failing) = absurd (failing refl)
  report_copy-EndsWell wanted name keep none w named (inr read) =
      let (e', w') = report_copy K P name keep (none, w) in
      EndsWell-ended K P clock wanted e' w' (finished K P clock wanted name named read)

  after_copy-EndsWell :
      (wanted name : Bytes) (keep : Bool) (timeout : ℤ) (w : World)
      → Named K P clock wanted name
      → EndsWell K P clock wanted (after_copy K P name keep (await K P name timeout w))
  unfolding after_copy
  after_copy-EndsWell wanted name keep timeout w named =
      let (e, w', waited, read) = await_ends K P clock name timeout w in
      rw waited (report_copy-EndsWell wanted name keep e w' named read)

  run_copy_nm-EndsWell :
      (wanted name body : Bytes) (t : CopyTargets) (timeout : ℤ) (keep : Bool) (announce : Bytes)
      (w : World)
      → (is_empty wanted ≡ false → name ≡ wanted)
      → EndsWell K P clock wanted (run_copy_nm K P name body t timeout keep announce w)
  unfolding run_copy_nm
  run_copy_nm-EndsWell wanted name body t timeout keep announce w wished =
      elim (Option-cases (new_clients K P w).0) [
        | inr (e, failing) ↦ rw (run_copy_nm, failing) tt
        | inl connected ↦
            let w₁ = (new_clients K P w).1 in
            let made = create_copy_nm K P name body t (whole_seconds timeout) [] w₁ in
            elim (Option-cases made.0) [
              | inr (e, failing) ↦ rw (run_copy_nm, connected, failing) tt
              | inl created ↦
                  rw (run_copy_nm, connected, created)
                    (after_copy-EndsWell wanted name keep timeout _ (
                      wished,
                      record {
                        body = body;
                        targets = t;
                        secs = whole_seconds timeout;
                        extra = [];
                        at = w₁;
                        fine = created;
                      },
                    ))
            ]
      ]

  push_body-EndsWell :
      (local remote : Bytes) (f : PushFlags) (info : FileInfo) (body : Bytes) (w : World)
      → EndsWell K P clock f.nm_name (push_body K P local remote f info body w)
  unfolding push_body
  push_body-EndsWell local remote f info body w =
      elim (Bool-cases (ltb max_copy_bytes (length (P.encode_base64 body)))) [
        | inl large ↦ rw (push_body, large) tt
        | inr fits ↦ elim (Bool-cases (is_empty f.nm_name)) [
          | inl generated ↦
              rw (push_body, fits, generated)
                (run_copy_nm-EndsWell f.nm_name _ _ f.targets f.timeout f.keep _ _
                  (λ given. absurd (ground (arith, generated, given))))
          | inr given ↦
              rw (push_body, fits, given)
                (run_copy_nm-EndsWell f.nm_name f.nm_name _ f.targets f.timeout f.keep _ _
                  (λ g. refl))
        ]
      ]

  push_file-EndsWell :
      (local remote : Bytes) (f : PushFlags) (w : World)
      → EndsWell K P clock f.nm_name (push_file K P local remote f w)
  unfolding push_file
  push_file-EndsWell local remote f w = elim (Result-cases (stat local w).0) [
    | inr (e, lost) ↦ rw (push_file, lost) tt
    | inl (info, there) ↦ elim (Bool-cases info.is_dir) [
      | inl dir ↦ rw (push_file, there, dir) tt
      | inr file ↦
          let w₁ = (stat local w).1 in
          elim (Result-cases (read_file local w₁).0) [
            | inr (e, unread) ↦ rw (push_file, there, file, unread) tt
            | inl (body, read) ↦
                rw (push_file, there, file, read)
                  (push_body-EndsWell local remote f info body (read_file local w₁).1)
          ]
    ]
  ]

  -- `push` ends. The fuel of its wait, two more than the timeout has nanoseconds, is enough, for every
  -- behaviour of the API server and the files, as long as the clock runs; and if it returns without an
  -- error, a resource was created and read as Completed, of the name that --name gives if it is given.
  pub push-EndsWell :
      (local remote : Bytes) (f : PushFlags) (w : World)
      → EndsWell K P clock f.nm_name (push K P local remote f w)
  unfolding push
  push-EndsWell local remote f w =
      elim (Bool-cases (
        not f.targets.all_nodes && (is_empty f.targets.selector && is_empty f.targets.nodes_csv))) [
          | inl untargeted ↦ rw (push, untargeted) tt
          | inr targeted ↦ elim (Bool-cases (has_prefix remote (codes "/"))) [
            | inr relative ↦ rw (push, targeted, relative) tt
            | inl absolute ↦ rw (push, targeted, absolute) (push_file-EndsWell local remote f w)
          ]
        ]
