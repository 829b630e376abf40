-- ===== src/Examples/Cluster.antt =====
-- A small cluster: a clock, nodes, pods and one NodeMaintenance resource, which every call answers
-- from, and whether somebody else is writing the resource. Evictions and updates succeed, and a pod that is created has succeeded at once.
use kluster_one.Prelude.{
  ℕ, ◌+◌, ◌≡◌, refl, inl, inr, Bool, true, false, List, [], ◌∷◌, ◌++◌, Option, none, some, Result,
  ok, err, Error, not_found, already_exists, ◌&&◌, Bytes, codes, arith, if◌then◌else◌, Bool-cases,
}
use kluster_one.Prelude.Int.{pos, pos_part}
use kluster_one.Prelude.Strings.{bytes_eq, bytes_eq_sound, bytes_eq_refl}
use kluster_one.Api.{NodeMaintenance}
use kluster_one.Kube.{Kube, Node, Pod, PodPhase, ConfigMap}
use kluster_one.Actions.Cordon.{unschedulable_patch, NodeLaws}
use kluster_one.Actions.Drain.Clock.{ClockLaws}
use kluster_one.Actions.Script.Stored.{ConfigMapLaws}
use kluster_one.Controller.Convergence.{ResourceLaws}
use kluster_one.Cli.Pull.{pulled}
use kluster_one.Examples.Capture.{unary, pulled_file}

pub record Cluster : Type 0 where
  pub clock : ℕ
  pub nodes : List Node
  pub pods : List Pod
  pub resource : Option NodeMaintenance
  pub busy : Bool
  pub config_map : Option ConfigMap
  pub evictions : List (Bytes × Bytes × Option Error)

abbrev pub missing : Error
missing = record { reason = not_found; text = codes "not found" }

abbrev find_node : Bytes → List Node → Option Node
find_node n [] = none
find_node n (x ∷ xs) = if bytes_eq x.name n then some x else find_node n xs

abbrev set_node : Bytes → Bool → List Node → List Node
set_node n b [] = []
set_node n b (x ∷ xs) =
    if bytes_eq x.name n then record x { unschedulable = b } ∷ xs else x ∷ set_node n b xs

abbrev find_pod : Bytes → List Pod → Option Pod
find_pod n [] = none
find_pod n (p ∷ ps) = if bytes_eq p.name n then some p else find_pod n ps

abbrev drop_pod : Bytes → List Pod → List Pod
drop_pod n [] = []
drop_pod n (p ∷ ps) = if bytes_eq p.name n then ps else p ∷ drop_pod n ps

abbrev pods_on : Bytes → List Pod → List Pod
pods_on n [] = []
pods_on n (p ∷ ps) = if bytes_eq p.spec.node_name n then p ∷ pods_on n ps else pods_on n ps

abbrev pub find_resource : Bytes → Option NodeMaintenance → Option NodeMaintenance
find_resource n none = none
find_resource n (some nm) = if bytes_eq nm.meta.name n then some nm else none

abbrev pub taken : Error
taken = record { reason = already_exists; text = codes "already exists" }

abbrev pub find_config_map : Bytes → Bytes → Option ConfigMap → Option ConfigMap
find_config_map ns n none = none
find_config_map ns n (some cm) = if bytes_eq cm.ns ns && bytes_eq cm.name n then some cm else none

abbrev found {ℓ} : {A : Type ℓ} → Option A → Result A
found none = err missing
found (some a) = ok a

abbrev ended : Pod → Pod
ended p = record p {
  phase = PodPhase.succeeded;
  container_statuses = record { name = codes "run"; terminated = some (pos 0) } ∷ [];
}

abbrev pub toy : Kube
toy = record {
  World = Cluster;
  quote = λ s. codes "\"" ++ (s ++ codes "\"");
  lower_rune = λ r. r;
  show_duration = λ d. codes "10m0s";
  now = λ w. w.clock;
  wait = λ p w. (none, record w { clock = w.clock + pos_part p });
  list_nodes = λ sel w. (ok w.nodes, w);
  get_node = λ n w. (found (find_node n w.nodes), w);
  patch_node = λ n patch w.
      (none, record w { nodes = set_node n (bytes_eq patch (unschedulable_patch true)) w.nodes });
  list_pods = λ n w. (ok (pods_on n w.pods), w);
  evict_pod = λ ns n g w.
      (none, record w { pods = drop_pod n w.pods; evictions = (ns, n, none) ∷ w.evictions });
  get_pod = λ ns n w. (found (find_pod n w.pods), w);
  create_pod = λ p w. (ok (ended p), record w { pods = ended p ∷ w.pods });
  delete_pod = λ ns n w. record w { pods = drop_pod n w.pods };
  get_logs = λ ns n c k w. (ok (ok (pulled (unary pulled_file))), w);
  create_config_map = λ cm w. (
    elim (find_config_map cm.ns cm.name w.config_map) [ some _ ↦ some taken | none ↦ none ],
    record w {
      config_map = elim (find_config_map cm.ns cm.name w.config_map) [
        | some _ ↦ w.config_map
        | none ↦ some cm
      ];
    },
  );
  get_config_map = λ ns n w. (found (find_config_map ns n w.config_map), w);
  update_config_map = λ cm w. (none, record w { config_map = some cm });
  get_nm = λ n w. (found (find_resource n w.resource), w);
  update_status = λ nm w. (none, record w { resource = some nm });
}

abbrev pub toy_clock : ClockLaws toy
toy_clock = record {
  wait_advances = λ p w h. omega arith;
  list_pods_later = λ n w. omega arith;
  evict_pod_later = λ ns n g w. omega arith;
  get_pod_later = λ ns n w. omega arith;
  get_nm_later = λ n w. omega arith;
}

find_node-name : (n : Bytes) (ns : List Node) (x : Node) → find_node n ns ≡ some x → x.name ≡ n
find_node-name n [] x h = ground arith
find_node-name n (y ∷ ns) x h = elim (Bool-cases (bytes_eq y.name n)) [
  | inl hit ↦ let same : y ≡ x = ground arith in ground (arith, bytes_eq_sound y.name n hit)
  | inr miss ↦ find_node-name n ns x (rw miss at h)
]

pub find_node-set :
    (n : Bytes) (b : Bool) (ns : List Node) (x : Node)
    → find_node n ns ≡ some x
    → find_node n (set_node n b ns) ≡ some (record x { unschedulable = b })
find_node-set n b [] x h = ground arith
find_node-set n b (y ∷ ns) x h = ground (arith, find_node-set n b ns x)

pub found_node :
    (n : Bytes) (ns : List Node) (x : Node)
    → found (find_node n ns) ≡ ok x
    → (find_node n ns ≡ some x) × (x.name ≡ n)
found_node n ns x h =
    let here : find_node n ns ≡ some x = ground arith in (here, find_node-name n ns x here)

pub patched : (b : Bool) → bytes_eq (unschedulable_patch b) (unschedulable_patch true) ≡ b
unfolding bytes_eq
patched true = refl
patched false = refl

abbrev pub toy_nodes : NodeLaws toy
toy_nodes = record {
  stored = λ w n. find_node n w.nodes;
  get_node_stored = λ n w node h. found_node n w.nodes node h;
  get_node_keeps = λ n w m. refl;
  patch_node_sets = λ n w node b h fine. rw (patched b) (find_node-set n b w.nodes node h);
}

abbrev pub toy_resource : ResourceLaws toy
toy_resource = record {
  stored = λ w n. find_resource n w.resource;
  get_nm_stored = λ n w nm h. (rw h refl, h);
  update_status_stores = λ nm w h. rw (bytes_eq_refl nm.meta.name) refl;
}

config_map-named :
    (ns n : Bytes) (o : Option ConfigMap) (cm : ConfigMap)
    → find_config_map ns n o ≡ some cm
    → (cm.ns ≡ ns) × (cm.name ≡ n)
config_map-named ns n none cm h = ground arith
config_map-named ns n (some x) cm h =
    (ground (arith, h, bytes_eq_sound x.ns ns), ground (arith, h, bytes_eq_sound x.name n))

pub config_map-read :
    (ns n : Bytes) (w : Cluster) (cm : ConfigMap)
    → (toy.get_config_map ns n w).0 ≡ ok cm
    → (cm.ns ≡ ns) × (cm.name ≡ n)
config_map-read ns n w cm h =
    let here : find_config_map ns n w.config_map ≡ some cm = ground (arith, h) in
    config_map-named ns n w.config_map cm here

pub config_map-created :
    (cm : ConfigMap) (w : Cluster)
    → (toy.create_config_map cm w).0 ≡ none
    → find_config_map cm.ns cm.name (toy.create_config_map cm w).1.config_map ≡ some cm
config_map-created cm w h = ground (arith, h, bytes_eq_refl cm.ns, bytes_eq_refl cm.name)

abbrev pub toy_config_maps : ConfigMapLaws toy
toy_config_maps = record {
  stored = λ w ns n. find_config_map ns n w.config_map;
  get_config_map_stored = λ ns n w cm h. rw h refl;
  get_config_map_named = config_map-read;
  create_config_map_stores = config_map-created;
  update_config_map_stores = λ cm w h. rw (bytes_eq_refl cm.ns, bytes_eq_refl cm.name) refl;
  delete_pod_keeps = λ ns n w ns' n'. refl;
}
