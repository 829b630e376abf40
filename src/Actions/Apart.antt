-- ===== src/Actions/Apart.antt =====
-- What the API server keeps apart: a call about nodes, pods or ConfigMaps, and a wait, writes none of the
-- NodeMaintenance resources. `view` is what can be seen of them.
use kluster_one.Prelude.{
  ◌≡◌, subst, true, false, Bool-cases, inl, inr, [], ◌∷◌, All, Option, ok, Bytes, arith,
}
use kluster_one.Prelude.Int.{ℤ}
use kluster_one.Api.{NodeMaintenance, NodeStatus, ActionSpec, ActionType}
use kluster_one.Kube.{Kube, Node, Pod, ConfigMap, Selector}
use kluster_one.Actions.{Action, Registry, action_type_eq, get_action}
use kluster_one.Actions.Cordon.{unschedulable_patch, cordon_execute, uncordon_execute}

pub record Apart (K : Kube) (A : Type 0) (view : K.World → A) : Type 0 where
  pub wait : (p : ℤ) (w : K.World) → view (K.wait p w).1 ≡ view w
  pub list_nodes : (sel : Selector) (w : K.World) → view (K.list_nodes sel w).1 ≡ view w
  pub get_node : (n : Bytes) (w : K.World) → view (K.get_node n w).1 ≡ view w
  pub patch_node : (n patch : Bytes) (w : K.World) → view (K.patch_node n patch w).1 ≡ view w
  pub list_pods : (n : Bytes) (w : K.World) → view (K.list_pods n w).1 ≡ view w
  pub evict_pod :
      (ns n : Bytes) (g : Option ℤ) (w : K.World) → view (K.evict_pod ns n g w).1 ≡ view w
  pub get_pod : (ns n : Bytes) (w : K.World) → view (K.get_pod ns n w).1 ≡ view w
  pub create_pod : (p : Pod) (w : K.World) → view (K.create_pod p w).1 ≡ view w
  pub delete_pod : (ns n : Bytes) (w : K.World) → view (K.delete_pod ns n w) ≡ view w
  pub get_logs :
      (ns n c : Bytes) (limit : ℤ) (w : K.World) → view (K.get_logs ns n c limit w).1 ≡ view w
  pub create_config_map :
      (cm : ConfigMap) (w : K.World) → view (K.create_config_map cm w).1 ≡ view w
  pub get_config_map : (ns n : Bytes) (w : K.World) → view (K.get_config_map ns n w).1 ≡ view w
  pub update_config_map :
      (cm : ConfigMap) (w : K.World) → view (K.update_config_map cm w).1 ≡ view w

module _ (K : Kube) (A : Type 0) (view : K.World → A) where
  open K use {World}

  -- An action that writes none of the resources.
  abbrev pub KeepsView : Action K → Type 0
  KeepsView a =
      (nm : NodeMaintenance) (node : Node) (ns : NodeStatus) (spec : ActionSpec) (w : World)
      → view (a nm node ns spec w).2 ≡ view w

  abbrev pub AllKeepView : Registry K → Type 0
  AllKeepView reg = All (λ e. KeepsView e.1) reg

  pub get_action-KeepsView :
      (t : ActionType) (reg : Registry K) (a : Action K)
      → AllKeepView reg
      → get_action K t reg ≡ ok a
      → KeepsView a
  unfolding get_action
  get_action-KeepsView t [] a h e = ground arith
  get_action-KeepsView t ((n, b) ∷ reg) a h e = elim (Bool-cases (action_type_eq n t)) [
    | inl hit ↦ let same : b ≡ a = ground arith in subst KeepsView same h.0
    | inr miss ↦ get_action-KeepsView t reg a h.1 (rw miss at e)
  ]

  module _ (apart : Apart K A view) where
    pub cordon-KeepsView : KeepsView (cordon_execute K)
    unfolding cordon_execute
    cordon-KeepsView nm node ns spec w =
        ground (arith, apart.patch_node node.name (unschedulable_patch true) w)

    pub uncordon-KeepsView : KeepsView (uncordon_execute K)
    unfolding uncordon_execute
    uncordon-KeepsView nm node ns spec w =
        ground (arith, apart.patch_node node.name (unschedulable_patch false) w)
