-- ===== src/Examples/ActionTests.antt =====
-- The actions on the small cluster.
use mathlib.Core.List.{Memᴰ}
use kluster_one.Prelude.{
  ℕ, ◌+◌, ◌<◌, ◌≡◌, ◌≢◌, ◌↔◌, refl, true, false, [], ◌∷◌, Option, none, some, ok, Error, codes,
  arith, wrap, other_reason, ◌++◌,
}
use kluster_one.Prelude.Int.{pos, ◌+ℤ◌}
use kluster_one.Prelude.Strings.{bytes_eq, lookup}
use kluster_one.Api.{NodeStatus, DrainOptions, cordon, drain, uncordon, pending_node}
use kluster_one.Kube.{Kube, Node}
use kluster_one.Actions.Cordon.{cordon_execute, uncordon_execute, cordon_then_uncordon}
use kluster_one.Actions.Drain.{
  returns, Report, drain_execute, drain_loop, drain_pass, pods_to_evict, evict_all, evict,
  listed_pass, drain_poll, drain_timeout, drain_options_or_default, select_evictable,
  eviction_outcome,
}
use kluster_one.Actions.Drain.Empties.{Drained, drain_execute_empties}
use kluster_one.Actions.Drain.Returns.{drain_execute_returns}
use kluster_one.Actions.Drain.Calls.{Ledger, Fatal, Asked}
use kluster_one.Actions.Drain.Refused.{Due, drain_pass_asks, drain_execute_tells}
use kluster_one.Examples.Cluster.{Cluster, toy, toy_clock, toy_nodes}
use kluster_one.Examples.Fixtures.{action, seeded, cluster, name_a, node, web, agent, drainer}

abbrev status_a : NodeStatus
status_a = pending_node name_a 5

-- The cluster with the web pod gone, which is where the drain of the node ends.
abbrev emptied : Cluster
emptied = record cluster {
  clock = 15;
  pods = agent ∷ [];
  evictions = (web.ns, web.name, none) ∷ [];
}

drain_run : drain_execute toy drainer 22 (node name_a) (action drain) cluster ≡ some (none, emptied)
unfolding drain_execute drain_loop drain_pass pods_to_evict select_evictable evict_all evict
    listed_pass bytes_eq lookup eviction_outcome drain_options_or_default ◌+ℤ◌ drain_timeout
    drain_poll
drain_run = refl

drain_execute_empties_example : Drained toy name_a (drain_options_or_default none) emptied
drain_execute_empties_example =
    drain_execute_empties toy drainer 22 (node name_a) (action drain) cluster emptied drain_run

drain_execute_returns_example :
    (t : ℕ) × (drain_timeout drainer (drain_options_or_default none) ≡ pos t)
    × (0 < t)
    × (r : Option Error × Cluster) × (drain_execute toy drainer
          (t + 2)
          (node name_a)
          (action drain)
          cluster
        ≡ some r)
drain_execute_returns_example =
    drain_execute_returns toy toy_clock drainer (node name_a) (action drain) cluster

abbrev toy_ledger : Ledger toy
toy_ledger = record {
  sent = λ w. w.evictions;
  evict_pod_sent = λ ns n g w. refl;
  list_pods_sent = λ n w. refl;
  wait_sent = λ p w. refl;
}

pods_read : (toy.list_pods name_a cluster).0 ≡ ok (web ∷ agent ∷ [])
unfolding bytes_eq
pods_read = refl

abbrev defaults : DrainOptions
defaults = drain_options_or_default none

abbrev unread : Report
unread = record { blocked = []; list_err = none; count = 0 }

passes_through : (e : Error) → (drain_pass toy name_a defaults unread cluster).0 ≢ returns (some e)
unfolding drain_pass pods_to_evict select_evictable evict_all evict listed_pass bytes_eq lookup
    eviction_outcome drain_options_or_default
passes_through e h = ground (arith, h)

drain_pass_asks_example :
    Asked toy toy_ledger defaults web.ns web.name (drain_pass toy name_a defaults unread cluster).1
    ↔ Due defaults (web ∷ agent ∷ []) web.ns web.name
drain_pass_asks_example =
    drain_pass_asks toy toy_ledger defaults name_a unread cluster (web ∷ agent ∷ []) web.ns web.name
      pods_read refl passes_through

-- A server that forbids every eviction.
abbrev forbidden : Error
forbidden = record { reason = other_reason; text = codes "forbidden" }

abbrev strict : Kube
strict = record toy {
  evict_pod =
      λ ns n g w. (some forbidden, record w { evictions = (ns, n, some forbidden) ∷ w.evictions });
}

abbrev strict_ledger : Ledger strict
strict_ledger = record {
  sent = λ w. w.evictions;
  evict_pod_sent = λ ns n g w. refl;
  list_pods_sent = λ n w. refl;
  wait_sent = λ p w. refl;
}

forbidden-Fatal : Fatal forbidden
forbidden-Fatal = record {
  found = λ h. ground (arith, h);
  unblocked = λ h. ground (arith, h);
  on_time = λ h. ground (arith, h);
  available = λ h. ground (arith, h);
  no_timeout = λ h. ground (arith, h);
}

abbrev refused : Cluster
refused = record cluster { evictions = (web.ns, web.name, some forbidden) ∷ [] }

abbrev refusal : Error
refusal = wrap (codes "evict " ++ (web.ns ++ (codes "/" ++ web.name))) forbidden

strict_run :
    drain_execute strict drainer 22 (node name_a) (action drain) cluster
    ≡ some (some refusal, refused)
unfolding drain_execute drain_loop drain_pass pods_to_evict select_evictable evict_all evict
    listed_pass bytes_eq lookup eviction_outcome drain_options_or_default ◌+ℤ◌ drain_timeout
    drain_poll
strict_run = refl

drain_execute_tells_example :
    some refusal ≡ some (wrap (codes "evict " ++ (web.ns ++ (codes "/" ++ web.name))) forbidden)
drain_execute_tells_example =
    drain_execute_tells strict strict_ledger drainer 22 (node name_a) (action drain) cluster refused
      (some refusal) web.ns web.name forbidden refl strict_run (Memᴰ.head refl) forbidden-Fatal

abbrev cordoned_node : Node
cordoned_node = record { name = name_a; unschedulable = true }

cordon_then_uncordon_example :
    let w₁ = (cordon_execute toy seeded (node name_a) status_a (action cordon) cluster).2 in
    toy_nodes.stored
      (uncordon_execute toy seeded cordoned_node status_a (action uncordon) w₁).2
      name_a
    ≡ some (record (node name_a) { unschedulable = false })
unfolding bytes_eq cordon_execute uncordon_execute
cordon_then_uncordon_example =
    cordon_then_uncordon toy toy_nodes seeded (node name_a) cordoned_node status_a status_a
      (action cordon) (action uncordon) cluster refl refl refl refl
