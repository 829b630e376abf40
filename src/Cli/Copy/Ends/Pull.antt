-- ===== src/Cli/Copy/Ends/Pull.antt =====
-- internal/cli/copy.go: how `pull` ends.
use kluster_one.Prelude.{
  ◌≡◌, ◌≢◌, refl, ◌⊎◌, inl, inr, Bool, false, Option, none, some, Error, Bytes, codes, arith,
  Bool-cases, Option-cases, Result-cases,
}
use kluster_one.Kube.{Kube}
use kluster_one.Actions.Drain.Clock.{ClockLaws}
use kluster_one.Cli.Args.{is_empty, runner_ns}
use kluster_one.Cli.Payload.{has_prefix, extract_payload}
use kluster_one.Cli.Clients.{new_clients}
use kluster_one.Cli.Plugin.{Plugin}
use kluster_one.Cli.Wait.{ReadCompleted}
use kluster_one.Cli.Copy.{PullFlags, await}
use kluster_one.Cli.Copy.Pull.{
  write_pulled, decode_pulled, finish_pull, after_wait, create_pull, pull_named, pull,
}
use kluster_one.Cli.Copy.Ends.{
  EndsWell, Named, Created, Finished, finished, await_ends, EndsWell-ended,
}

module _ (K : Kube) (P : Plugin K) (clock : ClockLaws K) where
  open K use {World, get_config_map}
  open P use {stat, read_file, decode_base64}

  decode_pulled-EndsWell :
      (wanted local logs : Bytes) (keep : Bool) (name : Bytes) (w : World)
      → Finished K P clock wanted
      → EndsWell K P clock wanted (decode_pulled K P local logs keep name w)
  unfolding decode_pulled
  decode_pulled-EndsWell wanted local logs keep name w done =
      elim (Option-cases (extract_payload logs)) [
        | inl broken ↦ rw (decode_pulled, broken) tt
        | inr (r, whole) ↦ elim (Result-cases r) [
          | inr (e, missing) ↦ rw (decode_pulled, whole, missing) tt
          | inl (payload, found) ↦ elim (Result-cases (decode_base64 payload)) [
            | inr (e, bad) ↦ rw (decode_pulled, whole, found, bad) tt
            | inl (decoded, good) ↦
                let (e, w') = write_pulled K P local decoded keep name w in
                rw (decode_pulled, whole, found, good) (EndsWell-ended K P clock wanted e w' done)
          ]
        ]
      ]

  finish_pull-EndsWell :
      (wanted local output_cm : Bytes) (keep : Bool) (name : Bytes) (w : World)
      → Finished K P clock wanted
      → EndsWell K P clock wanted (finish_pull K P local output_cm keep name w)
  unfolding finish_pull
  finish_pull-EndsWell wanted local output_cm keep name w done =
      elim (Result-cases (get_config_map runner_ns output_cm w).0) [
        | inr (e, lost) ↦ rw (finish_pull, lost) tt
        | inl (cm, got) ↦
            rw (finish_pull, got) (decode_pulled-EndsWell wanted local _ keep name _ done)
      ]

  answered :
      (local : Bytes) (f : PullFlags) (name : Bytes) (e : Option Error) (w : World)
      → Named K P clock f.nm_name name
      → (e ≢ none) ⊎ ReadCompleted K name
      → EndsWell K P clock f.nm_name (after_wait K P local f name (some (e, w)))
  unfolding after_wait
  answered local f name (some e) w named read = tt
  answered local f name none w named (inl failing) = absurd (failing refl)
  answered local f name none w named (inr read) =
      finish_pull-EndsWell f.nm_name local _ f.keep name w
        (finished K P clock f.nm_name name named read)

  after_wait-EndsWell :
      (local : Bytes) (f : PullFlags) (name : Bytes) (w : World)
      → Named K P clock f.nm_name name
      → EndsWell K P clock f.nm_name (after_wait K P local f name (await K P name f.timeout w))
  unfolding after_wait
  after_wait-EndsWell local f name w named =
      let (e, w', waited, read) = await_ends K P clock name f.timeout w in
      rw waited (answered local f name e w' named read)

  create_pull-Created :
      (remote : Bytes) (f : PullFlags) (name : Bytes) (w : World)
      → (create_pull K P remote f name w).0 ≡ none
      → Created K P clock name
  unfolding create_pull
  create_pull-Created remote f name w fine = record {
    body = _;
    targets = _;
    secs = _;
    extra = _;
    at = w;
    fine = fine;
  }

  pull_named-EndsWell :
      (remote local : Bytes) (f : PullFlags) (name : Bytes) (w : World)
      → (is_empty f.nm_name ≡ false → name ≡ f.nm_name)
      → EndsWell K P clock f.nm_name (pull_named K P remote local f name w)
  unfolding pull_named
  pull_named-EndsWell remote local f name w wished = elim (Option-cases (new_clients K P w).0) [
    | inr (e, failing) ↦ rw (pull_named, failing) tt
    | inl connected ↦ elim (Option-cases (create_pull K P remote f name (new_clients K P w).1).0) [
      | inr (e, failing) ↦ rw (pull_named, connected, failing) tt
      | inl created ↦
          rw (pull_named, connected, created)
            (after_wait-EndsWell local f name _
              (wished, create_pull-Created remote f name (new_clients K P w).1 created))
    ]
  ]

  -- `pull` ends. The fuel of its wait, two more than the timeout has nanoseconds, is enough, for every
  -- behaviour of the API server and the files, as long as the clock runs; and if it returns without an
  -- error, a resource was created and read as Completed, of the name that --name gives if it is given.
  pub pull-EndsWell :
      (remote local : Bytes) (f : PullFlags) (w : World)
      → EndsWell K P clock f.nm_name (pull K P remote local f w)
  unfolding pull
  pull-EndsWell remote local f w = elim (Bool-cases (is_empty f.node)) [
    | inl unnamed ↦ rw (pull, unnamed) tt
    | inr named ↦ elim (Bool-cases (has_prefix remote (codes "/"))) [
      | inr relative ↦ rw (pull, named, relative) tt
      | inl absolute ↦ elim (Bool-cases (is_empty f.nm_name)) [
        | inl generated ↦
            rw (pull, named, absolute, generated)
              (pull_named-EndsWell remote local f _ _
                (λ given. absurd (ground (arith, generated, given))))
        | inr given ↦
            rw (pull, named, absolute, given)
              (pull_named-EndsWell remote local f f.nm_name w (λ g. refl))
      ]
    ]
  ]
