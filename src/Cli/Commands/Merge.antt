-- ===== src/Cli/Commands/Merge.antt =====
-- What the API server documents of a JSON merge patch (RFC 7396), for the patches that the plugin sends.
use kluster_one.Prelude.{
  Result-cases, inl, inr, arith, ◌≡◌, refl, false, List, [], ◌∷◌, Option, none, some, Bytes,
  if◌then◌else◌, arith,
}
use kluster_one.Prelude.Strings.{bytes_eq, bytes_eq_refl, lookup, insert}
use kluster_one.Api.{NodeMaintenance, NodeMaintenanceSpec, ScriptSpec}
use kluster_one.Kube.{Kube}
use kluster_one.Controller.Convergence.{ResourceLaws}
use kluster_one.Cli.Clients.{load_config, new_clients}
use kluster_one.Cli.Plugin.{ConfigSource, Plugin, MergePatch}
use kluster_one.Cli.Commands.{inline_of}

-- `delete(m, k)`
unfoldable pub remove : Bytes → List (Bytes × Bytes) → List (Bytes × Bytes)
remove k [] = []
remove k ((j, v) ∷ m) = if bytes_eq j k then remove k m else (j, v) ∷ remove k m

-- A null deletes the key, and a text sets it.
unfoldable pub merge_annotations :
    List (Bytes × Option Bytes) → List (Bytes × Bytes) → List (Bytes × Bytes)
unfolding remove
merge_annotations [] m = m
merge_annotations ((k, none) ∷ more) m = merge_annotations more (remove k m)
merge_annotations ((k, some v) ∷ more) m = merge_annotations more (insert k v m)

-- The value that a patch gives a field.
abbrev pub or_kept {ℓ} : {A : Type ℓ} → Option A → A → A
or_kept none kept = kept
or_kept (some a) kept = a

-- The specification without the fields that the plugin patches.
abbrev pub rest_of : NodeMaintenanceSpec → NodeMaintenanceSpec
rest_of spec = record spec { paused = false; script = none }

-- The second resource is the first one with the patch merged into it. The server may put defaults beside
-- a script that the patch creates; of a script that is there, the patch replaces the text alone.
pub record Merged (p : MergePatch) (nm nm' : NodeMaintenance) : Type 0 where
  pub annotations : nm'.meta.annotations ≡ merge_annotations p.annotations nm.meta.annotations
  pub paused : nm'.spec.paused ≡ or_kept p.paused nm.spec.paused
  pub inline : inline_of nm' ≡ or_kept p.inline (inline_of nm)
  pub script : p.inline ≡ none → nm'.spec.script ≡ nm.spec.script
  pub rewritten :
      (s : ScriptSpec) (b : Bytes)
      → nm.spec.script ≡ some s
      → p.inline ≡ some b
      → nm'.spec.script ≡ some (record s { inline = b })
  pub rest : rest_of nm'.spec ≡ rest_of nm.spec
  pub status : nm'.status ≡ nm.status
  pub name : nm'.meta.name ≡ nm.meta.name

-- A patch that succeeds stores the merged resource; the terminal and the connection store nothing.
pub record PatchLaws (K : Kube) (P : Plugin K) : Type 0 where
  pub resource : ResourceLaws K
  pub patch_nm_merges :
      (name : Bytes) (p : MergePatch) (w : K.World) (nm : NodeMaintenance)
      → resource.stored w name ≡ some nm
      → (P.patch_nm name p w).0 ≡ none
      → (nm' : NodeMaintenance) × (resource.stored (P.patch_nm name p w).1 name ≡ some nm')
        × Merged p nm nm'
  pub print_keeps :
      (t name : Bytes) (w : K.World) → resource.stored (P.print t w) name ≡ resource.stored w name
  pub warn_keeps :
      (t name : Bytes) (w : K.World) → resource.stored (P.warn t w) name ≡ resource.stored w name
  pub client_config_keeps :
      (name : Bytes) (w : K.World)
      → resource.stored (P.client_config w).1 name ≡ resource.stored w name
  pub in_cluster_config_keeps :
      (name : Bytes) (w : K.World)
      → resource.stored (P.in_cluster_config w).1 name ≡ resource.stored w name
  pub kube_for_config_keeps :
      (cfg : ConfigSource) (name : Bytes) (w : K.World)
      → resource.stored (P.kube_for_config cfg w).1 name ≡ resource.stored w name
  pub dynamic_for_config_keeps :
      (cfg : ConfigSource) (name : Bytes) (w : K.World)
      → resource.stored (P.dynamic_for_config cfg w).1 name ≡ resource.stored w name

module _ (K : Kube) (P : Plugin K) (laws : PatchLaws K P) where
  open K use {World}
  open laws.resource use {stored}

  load_config_keeps : (name : Bytes) (w : World) → stored (load_config K P w).1 name ≡ stored w name
  unfolding load_config
  load_config_keeps name w = ground (
    arith,
    laws.client_config_keeps name w,
    laws.in_cluster_config_keeps name (P.client_config w).1,
  )

  pub new_clients_keeps :
      (name : Bytes) (w : World) → stored (new_clients K P w).1 name ≡ stored w name
  unfolding new_clients
  new_clients_keeps name w =
      let (r, w₁) = load_config K P w in
      let loaded = load_config_keeps name w in
      elim (Result-cases r) [
        | inr (e, failed) ↦ ground (arith, failed, loaded)
        | inl (cfg, got) ↦ ground (
          arith,
          got,
          loaded,
          laws.kube_for_config_keeps cfg name w₁,
          laws.dynamic_for_config_keeps cfg name (P.kube_for_config cfg w₁).1,
        )
      ]

pub lookup-remove : (k : Bytes) (m : List (Bytes × Bytes)) → lookup k (remove k m) ≡ none
unfolding lookup remove
lookup-remove k [] = refl
lookup-remove k ((j, v) ∷ m) = ground (arith, lookup-remove k m)

pub lookup-insert : (k v : Bytes) (m : List (Bytes × Bytes)) → lookup k (insert k v m) ≡ some v
unfolding lookup insert
lookup-insert k v [] = ground (arith, bytes_eq_refl k)
lookup-insert k v ((j, u) ∷ m) = ground (arith, lookup-insert k v m, bytes_eq_refl k)

-- To remove a key that is not there.
pub remove_absent : (k : Bytes) (m : List (Bytes × Bytes)) → lookup k m ≡ none → remove k m ≡ m
unfolding lookup remove
remove_absent k [] h = refl
remove_absent k ((j, v) ∷ m) h = ground (arith, remove_absent k m)

pub remove-insert :
    (k v : Bytes) (m : List (Bytes × Bytes)) → lookup k m ≡ none → remove k (insert k v m) ≡ m
unfolding lookup remove insert
remove-insert k v [] h = ground (arith, bytes_eq_refl k)
remove-insert k v ((j, u) ∷ m) h = ground (arith, remove-insert k v m)

pub remove_twice : (k : Bytes) (m : List (Bytes × Bytes)) → remove k (remove k m) ≡ remove k m
remove_twice k m = remove_absent k (remove k m) (lookup-remove k m)

-- What is put under a key goes with the key.
pub remove-insert_any :
    (k v : Bytes) (m : List (Bytes × Bytes)) → remove k (insert k v m) ≡ remove k m
unfolding remove insert
remove-insert_any k v [] = ground (arith, bytes_eq_refl k)
remove-insert_any k v ((j, u) ∷ m) = ground (arith, remove-insert_any k v m, bytes_eq_refl k)
