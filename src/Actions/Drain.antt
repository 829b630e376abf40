-- ===== src/Actions/Drain.antt =====
-- internal/actions/drain.go. The `for` loop runs on fuel, which is the time that is left; it gives `none`
-- only if the fuel runs out.
pub mod Clock
pub mod Select
pub mod Returns
pub mod Empties
pub mod Apart
pub mod Calls
pub mod Refused
use kluster_one.Prelude.{
  ℕ, zero, suc, ◌+◌, ◌-◌, ◌≤◌, ◌<◌, ◌≡◌, refl, ◌⊎◌, inl, inr, Bool, true, false, not, ◌&&◌, ◌||◌,
  List, [], ◌∷◌, ◌++◌, Option, none, some, Result, ok, err, Error, errorf, wrap, Bytes, codes,
  if◌then◌else◌, length, not_found, server_timeout, service_unavailable, timeout, too_many_requests,
  Reason,
}
use kluster_one.Prelude.Int.{ℤ, pos, negsuc, ltb_ℤ, ◌+ℤ◌, seconds}
use kluster_one.Prelude.Strings.{lookup, bytes_eq, join, decimal}
use kluster_one.Api.{NodeMaintenance, NodeStatus, ActionSpec, DrainOptions}
use kluster_one.Kube.{Kube, Node, Pod, PodPhase}

pub record Drain : Type 0 where
  pub default_timeout : ℤ
  pub poll_interval : ℤ

abbrev pub mirror_pod_annotation : Bytes
mirror_pod_annotation = codes "kubernetes.io/config.mirror"

unfoldable pub is_mirror_pod : Pod → Bool
is_mirror_pod p = elim (lookup mirror_pod_annotation p.annotations) [ none ↦ false | some _ ↦ true ]

abbrev any_daemon_set : List Bytes → Bool
any_daemon_set [] = false
any_daemon_set (kind ∷ rest) = bytes_eq kind (codes "DaemonSet") || any_daemon_set rest

unfoldable pub is_owned_by_daemon_set : Pod → Bool
is_owned_by_daemon_set p = any_daemon_set p.owner_kinds

unfoldable pub drain_options_or_default : Option DrainOptions → DrainOptions
drain_options_or_default none = record {
  grace_period_seconds = none;
  timeout_seconds = none;
  ignore_daemon_sets = true;
}
drain_options_or_default (some o) = o

abbrev pub is_finished : PodPhase → Bool
is_finished PodPhase.succeeded = true
is_finished PodPhase.failed = true
is_finished (PodPhase.other_phase _) = false

-- The loop of `podsToEvict`.
unfoldable pub select_evictable : DrainOptions → List Pod → List Pod
unfolding is_mirror_pod is_owned_by_daemon_set
select_evictable opts [] = []
select_evictable opts (p ∷ ps) =
    let rest = select_evictable opts ps in
    if is_mirror_pod p
    then rest
    else if is_owned_by_daemon_set p && opts.ignore_daemon_sets
    then rest
    else if is_finished p.phase
    then rest
    else p ∷ rest

-- `apierrors.IsServerTimeout(err) || IsServiceUnavailable(err) || IsTimeout(err) || IsTooManyRequests(err)`
abbrev pub is_transient : Reason → Bool
is_transient server_timeout = true
is_transient service_unavailable = true
is_transient timeout = true
is_transient too_many_requests = true
is_transient _ = false

unfoldable pub is_transient_api_err : Error → Bool
is_transient_api_err e = is_transient e.reason

-- The `switch` of `evict` on the API server's answer.
unfoldable pub eviction_outcome : Option Error → Result Bool
eviction_outcome none = ok false
eviction_outcome (some e) = elim e.reason [
  | not_found ↦ ok false
  | too_many_requests ↦ ok true
  | server_timeout ↦ ok false
  | service_unavailable ↦ ok false
  | timeout ↦ ok false
  | _ ↦ err e
]

unfoldable pub drain_timeout_error : Bytes → ℕ → List Bytes → Option Error → Error
drain_timeout_error node remaining blocked (some e) =
    wrap (codes "drain timed out on " ++ (node ++ codes ": last pod list failed transiently")) e
drain_timeout_error node remaining [] none = errorf (
    codes "drain timed out on "
    ++ (node ++ (codes ": " ++ (decimal remaining ++ codes " pods remaining"))))
drain_timeout_error node remaining (b ∷ blocked) none = errorf (
    codes "drain timed out on "
    ++ (node
        ++ (codes ": "
            ++ (decimal remaining
                ++ (codes " pods remaining (blocked by PDB: "
                    ++ (join (b ∷ blocked) (codes ", ") ++ codes ")"))))))

-- `namespace/name`
abbrev pub pod_path : Pod → Bytes
pod_path p = p.ns ++ (codes "/" ++ p.name)

-- What a pass reports: `lastBlocked`, `lastListErr`, `lastCount`.
pub record Report : Type 0 where
  pub blocked : List Bytes
  pub list_err : Option Error
  pub count : ℕ

-- What one pass decides before its test of the deadline: that `Execute` returns, or the new report.
pub data Pass : Type 0 where
  returns : Option Error → Pass
  reports : Report → Pass

pub Pass-cases :
    (p : Pass) → ((e : Option Error) × (p ≡ returns e)) ⊎ ((r : Report) × (p ≡ reports r))
Pass-cases (returns e) = inl (e, refl)
Pass-cases (reports r) = inr (r, refl)

-- The pass behind a list that was read: the pods on it, and what evicting them gave.
unfoldable pub listed_pass : List Pod → Result (List Bytes) → Pass
listed_pass [] blocked = returns none
listed_pass (p ∷ ps) (err e) = returns (some e)
listed_pass (p ∷ ps) (ok paths) =
    reports (record { blocked = paths; list_err = none; count = length (p ∷ ps) })

-- `timeout` and `poll` with their defaults.
unfoldable pub drain_timeout : Drain → DrainOptions → ℤ
drain_timeout d opts =
    let t : ℤ = elim opts.timeout_seconds [ none ↦ d.default_timeout | some s ↦ seconds s ] in
    if ltb_ℤ (pos 0) t then t else pos 300000000000

unfoldable pub drain_poll : Drain → ℤ
drain_poll d = if ltb_ℤ (pos 0) d.poll_interval then d.poll_interval else pos 5000000000

module _ (K : Kube) where
  open K use {World, now, wait, list_pods, evict_pod}

  unfoldable pub pods_to_evict : Bytes → DrainOptions → World → Result (List Pod) × World
  pods_to_evict node_name opts w =
      let (r, w') = list_pods node_name w in
      elim r [ err e ↦ (err e, w') | ok items ↦ (ok (select_evictable opts items), w') ]

  unfoldable pub evict : Pod → DrainOptions → World → Result Bool × World
  evict p opts w =
      let (e, w') = evict_pod p.ns p.name opts.grace_period_seconds w in (eviction_outcome e, w')

  -- The loop over `remaining`: the paths of the blocked pods, in order.
  unfoldable pub evict_all : DrainOptions → List Pod → World → Result (List Bytes) × World
  evict_all opts [] w = (ok [], w)
  evict_all opts (p ∷ ps) w =
      let skip = evict_all opts ps w in
      let (r, w₁) = evict p opts w in
      let (r', w₂) = evict_all opts ps w₁ in
      elim p.deletion_timestamp [
        | some _ ↦ skip
        | none ↦ elim r [
          | err e ↦ (err (wrap (codes "evict " ++ pod_path p) e), w₁)
          | ok is_blocked ↦ elim r' [
            | err e ↦ (err e, w₂)
            | ok blocked ↦ (ok (if is_blocked then pod_path p ∷ blocked else blocked), w₂)
          ]
        ]
      ]

  -- The `switch` on the list, and the evictions.
  unfoldable pub drain_pass : Bytes → DrainOptions → Report → World → Pass × World
  drain_pass node opts last w =
      let (r, w₁) = pods_to_evict node opts w in
      elim r [
        | err e ↦
            if is_transient_api_err e
            then (reports (record last { list_err = some e }), w₁)
            else (returns (some (wrap (codes "list pods on " ++ node) e)), w₁)
        | ok remaining ↦
            let (blocked, w₂) = evict_all opts remaining w₁ in (listed_pass remaining blocked, w₂)
      ]

  unfoldable pub drain_loop :
      ℕ → Bytes → DrainOptions → ℤ → ℤ → Report → World → Option (Option Error × World)
  drain_loop zero node opts deadline poll last w = none
  drain_loop (suc fuel) node opts deadline poll last w =
      let (pass, w₁) = drain_pass node opts last w in
      elim pass [
        | returns e ↦ some (e, w₁)
        | reports next ↦
            let (cancelled, w₂) = wait poll w₁ in
            let rest = drain_loop fuel node opts deadline poll next w₂ in
            if ltb_ℤ deadline (pos (now w₁))
            then some (some (drain_timeout_error node next.count next.blocked next.list_err), w₁)
            else elim cancelled [ some e ↦ some (some e, w₂) | none ↦ rest ]
      ]

  -- `Execute`, with fuel; it writes nothing into the node's status.
  unfoldable pub drain_execute :
      Drain → ℕ → Node → ActionSpec → World → Option (Option Error × World)
  drain_execute d fuel node spec w =
      let opts = drain_options_or_default spec.drain_options in
      drain_loop fuel node.name opts (pos (now w) +ℤ drain_timeout d opts) (drain_poll d)
        (record { blocked = []; list_err = none; count = 0 }) w
