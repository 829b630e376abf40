-- ===== src/Actions/Cordon.antt =====
-- internal/actions/cordon.go and internal/actions/uncordon.go.
use kluster_one.Prelude.{
  ◌≡◌, Bool, true, false, Option, none, some, ok, Bytes, codes, if◌then◌else◌, arith, sym, ap, not,
  subst, ◌∙◌,
}
use kluster_one.Api.{NodeMaintenance, NodeStatus, ActionSpec}
use kluster_one.Kube.{Kube, Node}
use kluster_one.Actions.{Action}
use kluster_one.Actions.Contract.{KeepsProgress}

abbrev pub unschedulable_patch : Bool → Bytes
unschedulable_patch true = codes "{\"spec\":{\"unschedulable\":true}}"
unschedulable_patch false = codes "{\"spec\":{\"unschedulable\":false}}"

-- What the API server documents of nodes: a read gives the stored object and stores nothing, and a
-- merge patch that succeeds sets the field and leaves the rest.
pub record NodeLaws (K : Kube) : Type 0 where
  pub stored : K.World → Bytes → Option Node
  pub get_node_stored :
      (n : Bytes) (w : K.World) (node : Node)
      → (K.get_node n w).0 ≡ ok node
      → (stored w n ≡ some node) × (node.name ≡ n)
  pub get_node_keeps :
      (n : Bytes) (w : K.World) (m : Bytes) → stored (K.get_node n w).1 m ≡ stored w m
  pub patch_node_sets :
      (n : Bytes) (w : K.World) (node : Node) (b : Bool)
      → stored w n ≡ some node
      → (K.patch_node n (unschedulable_patch b) w).0 ≡ none
      → stored (K.patch_node n (unschedulable_patch b) w).1 n
        ≡ some (record node { unschedulable = b })

module _ (K : Kube) where
  open K use {World, patch_node}

  unfoldable pub cordon_execute : Action K
  cordon_execute nm node ns spec w =
      let (e, w') = patch_node node.name (unschedulable_patch true) w in
      if node.unschedulable then (ns, none, w) else (ns, e, w')

  unfoldable pub uncordon_execute : Action K
  uncordon_execute nm node ns spec w =
      let (e, w') = patch_node node.name (unschedulable_patch false) w in
      if not node.unschedulable then (ns, none, w) else (ns, e, w')

  pub cordon-KeepsProgress : KeepsProgress K cordon_execute
  unfolding cordon_execute
  cordon-KeepsProgress = record {
    keeps_name = λ nm node ns spec w. ground arith;
    keeps_phase = λ nm node ns spec w. ground arith;
    keeps_completed = λ nm node ns spec w. ground arith;
  }

  pub uncordon-KeepsProgress : KeepsProgress K uncordon_execute
  unfolding uncordon_execute
  uncordon-KeepsProgress = record {
    keeps_name = λ nm node ns spec w. ground arith;
    keeps_phase = λ nm node ns spec w. ground arith;
    keeps_completed = λ nm node ns spec w. ground arith;
  }

  module _ (laws : NodeLaws K) where
    open laws use {stored}

    -- Cordon of a node as it is stored, if it returns no error, leaves that node stored as unschedulable
    -- and otherwise as it was.
    pub cordon_sets :
        (nm : NodeMaintenance) (node : Node) (ns : NodeStatus) (spec : ActionSpec) (w : World)
        → stored w node.name ≡ some node
        → (cordon_execute nm node ns spec w).1 ≡ none
        → stored (cordon_execute nm node ns spec w).2 node.name
          ≡ some (record node { unschedulable = true })
    unfolding cordon_execute
    cordon_sets nm node ns spec w here fine =
        ground (arith, laws.patch_node_sets node.name w node true here)

    -- Uncordon, likewise, leaves it stored as schedulable.
    pub uncordon_sets :
        (nm : NodeMaintenance) (node : Node) (ns : NodeStatus) (spec : ActionSpec) (w : World)
        → stored w node.name ≡ some node
        → (uncordon_execute nm node ns spec w).1 ≡ none
        → stored (uncordon_execute nm node ns spec w).2 node.name
          ≡ some (record node { unschedulable = false })
    unfolding uncordon_execute
    uncordon_sets nm node ns spec w here fine =
        ground (arith, laws.patch_node_sets node.name w node false here)

    -- A run of Cordon and then, on the node as it is stored by then, of Uncordon, both without an error,
    -- leaves the node schedulable and otherwise as it was before, also if it was unschedulable before.
    pub cordon_then_uncordon :
        (nm : NodeMaintenance) (node node' : Node) (ns ns' : NodeStatus) (spec spec' : ActionSpec)
        (w : World)
        → stored w node.name ≡ some node
        → (cordon_execute nm node ns spec w).1 ≡ none
        → let w₁ = (cordon_execute nm node ns spec w).2 in
          stored w₁ node.name ≡ some node'
          → (uncordon_execute nm node' ns' spec' w₁).1 ≡ none
          → stored (uncordon_execute nm node' ns' spec' w₁).2 node.name
            ≡ some (record node { unschedulable = false })
    cordon_then_uncordon nm node node' ns ns' spec spec' w here fine there fine' =
        let w₁ = (cordon_execute nm node ns spec w).2 in
        let same : record node { unschedulable = true } ≡ node' =
          ground (arith, cordon_sets nm node ns spec w here fine) in
        let name : node'.name ≡ node.name = ap (λ (n : Node). n.name) (sym same) in
        let there' = subst (λ n. stored w₁ n ≡ some node') (sym name) there in
        let after =
          subst
            (λ n.
              stored (uncordon_execute nm node' ns' spec' w₁).2 n
              ≡ some (record node' { unschedulable = false }))
            name (uncordon_sets nm node' ns' spec' w₁ there' fine') in
        after ∙ ap (λ (n : Node). some (record n { unschedulable = false })) (sym same)
