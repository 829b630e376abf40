-- ===== src/Examples/Terminal.antt =====
-- A plugin on the small cluster: every call succeeds, patches are merged, and the encoding is unary.
use kluster_one.Prelude.{
  ℕ, zero, suc, ◌+◌, ◌≡◌, refl, ◌∙◌, ap, false, [], ◌∷◌, Option, none, some, ok, Bytes, codes,
  arith, if◌then◌else◌, All, ◌==◌, sym, inl, inr, Bool-cases, List, map, Bool, true, ◌&&◌, leb,
  Error,
}
use kluster_one.Prelude.Strings.{bytes_eq, bytes_eq_refl, decimal}
use kluster_one.Api.{
  NodeMaintenance, NodeMaintenanceSpec, ScriptSpec, ActionSpec, ActionType, EnvVar,
}
use kluster_one.Cli.Create.Yaml.{carry_type, carry_action, carry_env, carry_script, carried_spec}
use kluster_one.Cli.Commands.{inline_of}
use kluster_one.Cli.Commands.Merge.{PatchLaws, Merged, merge_annotations, or_kept}
use kluster_one.Cli.Copy.Back.{Base64Laws}
use kluster_one.Cli.Create.Applied.{ApplyLaws, SameWish}
use kluster_one.Cli.Plugin.{Plugin, MergePatch}
use kluster_one.Cli.Pull.{IsPlain}
use kluster_one.Prelude.Trim.{IsPrintable}
use kluster_one.Examples.Capture.{letters, unary}
use kluster_one.Examples.Cluster.{Cluster, missing, toy, toy_resource, find_resource}

abbrev with_inline : Option Bytes → Option ScriptSpec → Option ScriptSpec
with_inline none s = s
with_inline (some b) (some s) = some (record s { inline = b })
with_inline (some b) none =
    some (record { inline = b; image = []; timeout_seconds = none; run_on_host = none; env = [] })

abbrev apply_patch : MergePatch → NodeMaintenance → NodeMaintenance
apply_patch p nm = record nm {
  meta = record nm.meta { annotations = merge_annotations p.annotations nm.meta.annotations };
  spec = record nm.spec {
    paused = or_kept p.paused nm.spec.paused;
    script = with_inline p.inline nm.spec.script;
  };
}

abbrev patch_resource : MergePatch → Option NodeMaintenance → Option NodeMaintenance
patch_resource p none = none
patch_resource p (some nm) = some (apply_patch p nm)

-- The counterpart, which carries the letters that it has read.
abbrev read_unary : ℕ → Bytes → Bytes
read_unary n [] = []
read_unary n (c ∷ s) = if c == b'a' then read_unary (suc n) s else n ∷ read_unary 0 s

abbrev all_printable : Bytes → Bool
all_printable [] = true
all_printable (c ∷ s) = (leb 33 c && leb c 126) && all_printable s

-- A resource is stored if its name is printable ASCII.
abbrev pub store : NodeMaintenance → Cluster → Option Error × Cluster
store nm w =
    if all_printable nm.meta.name
    then (none, record w { resource = some nm })
    else (some missing, w)

all_printable_sound : (s : Bytes) → all_printable s ≡ true → All IsPrintable s
all_printable_sound [] h = tt
all_printable_sound (c ∷ s) h = (ground (arith, h), all_printable_sound s (ground (arith, h)))

pub store_stores :
    (nm : NodeMaintenance) (w : Cluster)
    → (store nm w).0 ≡ none
    → All IsPrintable nm.meta.name
      × (nm' : NodeMaintenance) × (toy_resource.stored (store nm w).1 nm.meta.name ≡ some nm')
      × SameWish nm nm'
store_stores nm w h =
    let fine : all_printable nm.meta.name ≡ true = ground (arith, h) in
    let found : toy_resource.stored (store nm w).1 nm.meta.name ≡ some nm =
      ground (arith, fine, bytes_eq_refl nm.meta.name) in
    (all_printable_sound nm.meta.name fine, nm, found, record { spec = refl; annotations = refl })

abbrev pub terminal : Plugin toy
terminal = record {
  print = λ t w. w;
  warn = λ t w. w;
  usage = λ t w. w;
  stat = λ path w. (ok (record { is_dir = false; perm = 420 }), w);
  read_file = λ path w. (ok (codes "uname -a"), w);
  write_file = λ path b perm w. (none, w);
  show_octal = decimal;
  show_hex = decimal;
  pad = λ n s. s;
  show_time = decimal;
  print_table = λ t w. (none, w);
  encode_hex = unary;
  encode_base64 = unary;
  decode_base64 = λ s. ok (read_unary 0 s);
  random_bytes = λ n w. (ok (1 ∷ 2 ∷ []), w);
  client_config = λ w. (none, w);
  in_cluster_config = λ w. (none, w);
  kube_for_config = λ cfg w. (none, w);
  dynamic_for_config = λ cfg w. (none, w);
  Text = NodeMaintenance;
  marshal_yaml = λ nm. ok nm;
  yaml_to_json = λ t. ok t;
  unmarshal_json = λ t. ok t;
  write_text = λ t w. (none, w);
  create_nm = λ nm w. store nm w;
  update_nm = λ old nm w. store nm w;
  patch_nm = λ n p w. (none, record w { resource = patch_resource p w.resource });
  delete_nm = λ n w. (none, record w { resource = none });
  open_log = λ ns pod c follow w. (none, w);
  copy_log = λ w. some (none, w);
  json_text = λ s. s;
  json_map = λ m. m;
}

inline_patched :
    (p : MergePatch) (nm : NodeMaintenance)
    → inline_of (apply_patch p nm) ≡ or_kept p.inline (inline_of nm)
unfolding inline_of
inline_patched p nm = ground arith

pub merged : (p : MergePatch) (nm : NodeMaintenance) → Merged p nm (apply_patch p nm)
merged p nm = record {
  annotations = refl;
  paused = refl;
  inline = inline_patched p nm;
  script = λ h. rw h refl;
  rewritten = λ s b here text. rw (here, text) refl;
  rest = refl;
  status = refl;
  name = refl;
}

pub patch_stored :
    (name : Bytes) (p : MergePatch) (o : Option NodeMaintenance) (nm : NodeMaintenance)
    → find_resource name o ≡ some nm
    → find_resource name (patch_resource p o) ≡ some (apply_patch p nm)
patch_stored name p none nm h = ground arith
patch_stored name p (some r) nm h = elim (Bool-cases (bytes_eq r.meta.name name)) [
  | inl here ↦
      let same : r ≡ nm = ground (arith, here) in rw here (ap (λ x. some (apply_patch p x)) same)
  | inr other ↦ absurd (ground (arith, other))
]

abbrev pub terminal_patch : PatchLaws toy terminal
terminal_patch = record {
  resource = toy_resource;
  patch_nm_merges =
      λ name p w nm h fine. (apply_patch p nm, patch_stored name p w.resource nm h, merged p nm);
  print_keeps = λ t name w. refl;
  warn_keeps = λ t name w. refl;
  client_config_keeps = λ name w. refl;
  in_cluster_config_keeps = λ name w. refl;
  kube_for_config_keeps = λ cfg name w. refl;
  dynamic_for_config_keeps = λ cfg name w. refl;
}

abbrev kind_of : ActionSpec → ActionType → ActionSpec
kind_of a t = record a { type = t }

abbrev env_of : ScriptSpec → List EnvVar → ScriptSpec
env_of s env = record s { env = env }

abbrev rebuilt :
    NodeMaintenanceSpec → List Bytes → Option ScriptSpec → List ActionSpec → NodeMaintenanceSpec
rebuilt spec names script actions = record spec {
  node_names = names;
  script = script;
  actions = actions;
}

same_all {ℓ} : {A : Type ℓ} (f : A → A) (l : List A) → ((a : A) → f a ≡ a) → map f l ≡ l
same_all f [] h = refl
same_all f (a ∷ l) h = ground (arith, h a, same_all f l h)

same_type : (t : ActionType) → carry_type toy terminal t ≡ t
same_type t = ground arith

same_action : (a : ActionSpec) → carry_action toy terminal a ≡ a
same_action a = ap (λ t. kind_of a t) (same_type a.type)

same_script : (s : Option ScriptSpec) → carry_script toy terminal s ≡ s
same_script none = refl
same_script (some s) =
    ap (λ env. some (env_of s env)) (same_all (carry_env toy terminal) s.env (λ e. refl))

-- Every text of the small cluster is carried as it is.
pub carried_same : (spec : NodeMaintenanceSpec) → carried_spec toy terminal spec ≡ spec
unfolding carried_spec
carried_same spec =
    ap
      (λ n.
        rebuilt spec n (carry_script toy terminal spec.script)
          (map (carry_action toy terminal) spec.actions))
      (same_all terminal.json_text spec.node_names (λ t. refl))
    ∙ ap (λ s. rebuilt spec spec.node_names s (map (carry_action toy terminal) spec.actions))
        (same_script spec.script)
    ∙ ap (rebuilt spec spec.node_names spec.script)
        (same_all (carry_action toy terminal) spec.actions same_action)

pub read_back :
    (nm u b j : NodeMaintenance)
    → terminal.marshal_yaml nm ≡ ok b
    → terminal.yaml_to_json b ≡ ok j
    → terminal.unmarshal_json j ≡ ok u
    → (u.meta.name ≡ nm.meta.name)
      × (u.spec ≡ carried_spec toy terminal nm.spec)
      × (u.meta.annotations ≡ nm.meta.annotations)
read_back nm u b j h₁ h₂ h₃ =
    let same : nm ≡ u = ground (arith, h₁, h₂, h₃) in
    rw (sym same) (refl, sym (carried_same nm.spec), refl)

abbrev pub terminal_apply : ApplyLaws toy terminal toy_resource.stored
terminal_apply = record {
  yaml_carries = read_back;
  json_text_ascii = λ s h. refl;
  json_text_ascii_back = λ s h. refl;
  create_nm_stores = store_stores;
  update_nm_stores = λ old. store_stores;
  print_keeps = λ t name w. refl;
}

letters-IsPlain : (n : ℕ) (s : Bytes) → All IsPlain s → All IsPlain (letters n s)
letters-IsPlain zero s h = (refl, h)
letters-IsPlain (suc n) s h = (refl, letters-IsPlain n s h)

pub unary-IsPlain : (b : Bytes) → All IsPlain (unary b)
unary-IsPlain [] = tt
unary-IsPlain (n ∷ b) = letters-IsPlain n (unary b) (unary-IsPlain b)

read_letters : (n k : ℕ) (s : Bytes) → read_unary k (letters n s) ≡ (n + k) ∷ read_unary 0 s
read_letters zero k s = ap (λ m. m ∷ read_unary 0 s) (omega arith)
read_letters (suc n) k s = read_letters n (suc k) s ∙ ap (λ m. m ∷ read_unary 0 s) (omega arith)

pub read_unary_back : (b : Bytes) → read_unary 0 (unary b) ≡ b
read_unary_back [] = refl
read_unary_back (n ∷ b) =
    read_letters n 0 (unary b)
    ∙ ap (λ m. m ∷ read_unary 0 (unary b)) (omega arith)
    ∙ ap (λ s. n ∷ s) (read_unary_back b)

abbrev pub terminal_base64 : Base64Laws toy terminal
terminal_base64 = record {
  encode_plain = unary-IsPlain;
  decode_encode = λ b. ap ok (read_unary_back b);
}
