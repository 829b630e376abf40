-- ===== src/Cli/Logs/Shows.antt =====
-- internal/cli/status_logs.go: when `RunLogs` fails.
use mathlib.Core.List.{Memᴰ}
use kluster_one.Prelude.{
  ◌++◌, ◌≡◌, ◌≢◌, refl, ap, ◌⊎◌, ◌↔◌, inl, inr, Bool, true, false, ◌||◌, List, [], ◌∷◌, Option,
  none, some, ok, Error, errorf, Bytes, arith, if◌then◌else◌, Bool-cases, Option-cases, codes,
}
use kluster_one.Prelude.Strings.{bytes_eq, bytes_eq_sound, bytes_eq_refl}
use kluster_one.Api.{NodeMaintenance, NodeStatus}
use kluster_one.Kube.{Kube}
use kluster_one.Actions.Drain.Select.{Memᴰ-cases, not-Memᴰ-nil}
use kluster_one.Cli.Args.{is_empty, runner_ns}
use kluster_one.Cli.Logs.{
  LogsFlags, has_logs, pod_line, after_stream, tail_line, show_node, stream_pod_logs, logs_loop,
  logs,
}
use kluster_one.Cli.Plugin.{Plugin}

-- The node is one that is asked for, all or one by name, and the status names a pod or holds a tail.
pub record Recorded (node : Bytes) (ns : NodeStatus) : Type 0 where
  pub asked : (node ≡ []) ⊎ (ns.name ≡ node)
  pub kept : (ns.script_pod_name ≢ []) ⊎ (ns.script_log_tail ≢ [])

-- One of the nodes is such.
abbrev pub Shows : Bytes → List NodeStatus → Type 0
Shows node nodes = (ns : NodeStatus) × Memᴰ ns nodes × Recorded node ns

empty_nil : (s : Bytes) → is_empty s ≡ true → s ≡ []
empty_nil [] h = refl
empty_nil (c ∷ s) h = absurd (ground arith)

filled : (s : Bytes) → is_empty s ≡ false → s ≢ []
filled [] h e = ground arith
filled (c ∷ s) h e = ground (arith, ap is_empty e)

nonempty : (s : Bytes) → s ≢ [] → is_empty s ≡ false
nonempty [] h = absurd (h refl)
nonempty (c ∷ s) h = refl

has_logs-Recorded : (node : Bytes) (ns : NodeStatus) → has_logs node ns ≡ true → Recorded node ns
unfolding has_logs
has_logs-Recorded node ns h = record {
  asked = elim (Bool-cases (is_empty node)) [
    | inl every ↦ inl (empty_nil node every)
    | inr one ↦ inr (bytes_eq_sound ns.name node (ground (arith, h, one)))
  ];
  kept = elim (Bool-cases (is_empty ns.script_pod_name)) [
    | inr pod ↦ inl (filled ns.script_pod_name pod)
    | inl bare ↦ inr (filled ns.script_log_tail (ground (arith, h, bare)))
  ];
}

asked_for :
    (node : Bytes) (ns : NodeStatus)
    → (node ≡ []) ⊎ (ns.name ≡ node)
    → (is_empty node || bytes_eq ns.name node) ≡ true
asked_for node ns (inl every) = rw every refl
asked_for node ns (inr one) =
    let same : bytes_eq ns.name node ≡ true = rw one (bytes_eq_refl node) in ground (arith, same)

Recorded-has_logs : (node : Bytes) (ns : NodeStatus) → Recorded node ns → has_logs node ns ≡ true
unfolding has_logs
Recorded-has_logs node ns r =
    let asked = asked_for node ns r.asked in
    elim r.kept [
      | inl pod ↦ ground (arith, asked, nonempty ns.script_pod_name pod)
      | inr tail ↦ ground (arith, asked, nonempty ns.script_log_tail tail)
    ]

module _ (K : Kube) (P : Plugin K) where
  open K use {World, get_nm}
  open P use {open_log, copy_log}

  -- A log that is not followed ends.
  pub record LogLaws : Type 0 where
    pub copy_ends :
        (ns pod c : Bytes) (w : World)
        → (answer : Option Error × World) × (copy_log (open_log ns pod c false w).1 ≡ some answer)

  module _ (laws : LogLaws) where
    stream_ends :
        (ns pod : Bytes) (w : World)
        → (answer : Option Error × World) × (stream_pod_logs K P ns pod false w ≡ some answer)
    unfolding stream_pod_logs
    stream_ends ns pod w =
        let (r, ended) = laws.copy_ends ns pod (codes "run") w in
        elim (Option-cases (open_log ns pod (codes "run") false w).0) [
          | inl opened ↦ (r, rw (stream_pod_logs, opened) ended)
          | inr (e, failed) ↦ (
            (some e, (open_log ns pod (codes "run") false w).1),
            rw (stream_pod_logs, failed) refl,
          )
        ]

    show_node_ends :
        (ns : NodeStatus) (w : World) → (w' : World) × (show_node K P false ns w ≡ some w')
    unfolding show_node
    show_node_ends ns w = elim (Bool-cases (is_empty ns.script_pod_name)) [
      | inl bare ↦
          let line = codes "==> " ++ (ns.name ++ codes " (no runner pod recorded) <==\n") in
          (tail_line K P ns (P.print line w), rw (show_node, bare) refl)
      | inr pod ↦
          let (r, ended) = stream_ends runner_ns ns.script_pod_name (P.print (pod_line ns) w) in
          (after_stream K P ns r.0 r.1, rw (show_node, pod, ended) refl)
    ]

    logs_loop-Shows :
        (f : LogsFlags) (nodes : List NodeStatus) (any : Bool) (w : World)
        → f.follow ≡ false
        → (out : Bool × World) × (logs_loop K P f nodes any w ≡ some out)
          × ((out.0 ≡ true) ↔ ((any ≡ true) ⊎ Shows f.node nodes))
    unfolding logs_loop
    logs_loop-Shows f [] any w still = (
      (any, w),
      refl,
      (λ h. inl h, λ s. elim s [ inl h ↦ h | inr (ns, there, _) ↦ absurd (not-Memᴰ-nil ns there) ]),
    )
    logs_loop-Shows f (ns ∷ more) any w still = elim (Bool-cases (has_logs f.node ns)) [
      | inr hidden ↦
          let (out, ran, (to, from)) = logs_loop-Shows f more any w still in
          let skipped : (if has_logs f.node ns then show_node K P f.follow ns w else some w)
              ≡ some w =
            rw hidden refl in
          let ran' : logs_loop K P f more (has_logs f.node ns || any) w ≡ some out =
            rw hidden ran in
          (
            out,
            rw (logs_loop, skipped) ran',
            (
              λ h. elim (to h) [
                | inl before ↦ inl before
                | inr (x, there, r) ↦ inr (x, Memᴰ.tail there, r)
              ],
              λ s. elim s [
                | inl before ↦ from (inl before)
                | inr (x, there, r) ↦ elim (Memᴰ-cases there) [
                  | inr later ↦ from (inr (x, later, r))
                  | inl same ↦ absurd (
                      ground
                        (arith, hidden, Recorded-has_logs f.node x r, ap (has_logs f.node) same))
                ]
              ],
            ),
          )
      | inl shown ↦
          let (w', went) = show_node_ends ns w in
          let went' : show_node K P f.follow ns w ≡ some w' = rw still went in
          let started : (if has_logs f.node ns then show_node K P f.follow ns w else some w)
              ≡ some w' =
            rw shown went' in
          let (out, ran, (to, from)) = logs_loop-Shows f more true w' still in
          let ran' : logs_loop K P f more (has_logs f.node ns || any) w' ≡ some out =
            rw shown ran in
          (
            out,
            rw (logs_loop, started) ran',
            (
              λ h. inr (ns, Memᴰ.head refl, has_logs-Recorded f.node ns shown),
              λ s. from (inl refl),
            ),
          )
    ]

    -- `logs` without -f returns on a resource that it could read, and fails exactly if there is nothing to
    -- show: no node that is asked for, all or one by its name, has a runner pod or a tail of its logs in the
    -- status. A stream that fails is no error.
    pub logs_ok :
        (name : Bytes) (f : LogsFlags) (w : World) (nm : NodeMaintenance)
        → (get_nm name w).0 ≡ ok nm
        → f.follow ≡ false
        → (answer : Option Error × World) × (logs K P name f w ≡ some answer)
          × ((answer.0 ≡ none) ↔ Shows f.node nm.status.nodes)
    unfolding logs
    logs_ok name f w nm got still =
        let (out, ran, (to, from)) =
          logs_loop-Shows f nm.status.nodes false (get_nm name w).1 still in
        elim (Bool-cases out.0) [
          | inl shown ↦ (
            (none, out.1),
            rw (logs, got, ran, shown) refl,
            (
              λ h. elim (to shown) [ inl before ↦ absurd (ground (arith, before)) | inr s ↦ s ],
              λ s. refl,
            ),
          )
          | inr hidden ↦ (
            (some (errorf (codes "no runner pod found in status (yet)")), out.1),
            rw (logs, got, ran, hidden) refl,
            (λ h. absurd (ground arith), λ s. absurd (ground (arith, hidden, from (inr s)))),
          )
        ]
