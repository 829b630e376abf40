-- ===== src/Cli/Create/Applied.antt =====
-- internal/cli/create.go: what `create` leaves stored when it returns without an error.
use kluster_one.Prelude.{
  ◌≡◌, refl, ◌∙◌, inl, inr, Bool, true, false, ◌||◌, [], ◌∷◌, Option, none, some, ok, Error, Bytes,
  codes, arith, ltb, length, is_not_found, Option-cases, Result-cases, Bool-cases, subst, All, List,
  map, ap,
}
use kluster_one.Api.{NodeMaintenance, NodeMaintenanceSpec}
use kluster_one.Kube.{Kube}
use kluster_one.Cli.Clients.{new_clients}
use kluster_one.Cli.Create.Yaml.{to_unstructured, carried_spec}
use kluster_one.Prelude.Trim.{IsPrintable}
use kluster_one.Prelude.Strings.{sort}
use kluster_one.Orchestrator.{resolve_nodes}
use kluster_one.Cli.Create.Selector.{IsNodeName}
use kluster_one.Cli.Create.Targets.{resolve_named}
use kluster_one.Cli.Plugin.{Plugin}
use kluster_one.Cli.Commands.{max_inline_script_bytes, resource_line}
use kluster_one.Cli.Create.{CreateFlags, build_nm, overridden, flags_error}
use kluster_one.Cli.Create.Apply.{
  script_body, applied, apply_nm, create_hint, create_nm_now, create_body, create,
}

-- The second resource asks for what the first one does.
pub record SameWish (nm nm' : NodeMaintenance) : Type 0 where
  pub spec : nm'.spec ≡ nm.spec
  pub annotations : nm'.meta.annotations ≡ nm.meta.annotations

-- What the API server documents of creations and updates: if they succeed, the object that was sent is
-- stored under its name, which is a DNS name, its specification and annotations as sent. And what package
-- encoding/json documents of texts.
pub record ApplyLaws (K : Kube) (P : Plugin K) (stored : K.World → Bytes → Option NodeMaintenance)
    : Type 0 where
  -- A document in YAML, as JSON, and read back, gives the object with its texts as JSON carries them.
  pub yaml_carries :
      (nm u : NodeMaintenance) (b j : P.Text)
      → P.marshal_yaml nm ≡ ok b
      → P.yaml_to_json b ≡ ok j
      → P.unmarshal_json j ≡ ok u
      → (u.meta.name ≡ P.json_text nm.meta.name)
        × (u.spec ≡ carried_spec K P nm.spec)
        × (u.meta.annotations ≡ P.json_map nm.meta.annotations)
  -- Printable ASCII stays as it is, and no other text becomes such.
  pub json_text_ascii : (s : Bytes) → All IsPrintable s → P.json_text s ≡ s
  pub json_text_ascii_back : (s : Bytes) → All IsPrintable (P.json_text s) → P.json_text s ≡ s
  pub create_nm_stores :
      (nm : NodeMaintenance) (w : K.World)
      → (P.create_nm nm w).0 ≡ none
      → All IsPrintable nm.meta.name
        × (nm' : NodeMaintenance) × (stored (P.create_nm nm w).1 nm.meta.name ≡ some nm')
        × SameWish nm nm'
  pub update_nm_stores :
      (old nm : NodeMaintenance) (w : K.World)
      → (P.update_nm old nm w).0 ≡ none
      → All IsPrintable nm.meta.name
        × (nm' : NodeMaintenance) × (stored (P.update_nm old nm w).1 nm.meta.name ≡ some nm')
        × SameWish nm nm'
  pub print_keeps : (t name : Bytes) (w : K.World) → stored (P.print t w) name ≡ stored w name

module _ (K : Kube) (P : Plugin K) (stored : K.World → Bytes → Option NodeMaintenance)
    (laws : ApplyLaws K P stored) where
  open K use {World, get_nm}
  open P use {print, create_nm, update_nm}

  -- The second resource asks for what the first one does, as JSON carries it.
  pub record Carries (nm nm' : NodeMaintenance) : Type 0 where
    pub spec : nm'.spec ≡ carried_spec K P nm.spec
    pub annotations : nm'.meta.annotations ≡ P.json_map nm.meta.annotations

  -- JSON carries the resource as it is; so it does if its texts are valid UTF-8.
  pub record Carried (nm : NodeMaintenance) : Type 0 where
    pub spec : carried_spec K P nm.spec ≡ nm.spec
    pub annotations : P.json_map nm.meta.annotations ≡ nm.meta.annotations

  pub SameWish-of_Carries :
      (nm nm' : NodeMaintenance) → Carried nm → Carries nm nm' → SameWish nm nm'
  SameWish-of_Carries nm nm' c h = record {
    spec = h.spec ∙ c.spec;
    annotations = h.annotations ∙ c.annotations;
  }

  -- The object is sent as it was built, as JSON carries it.
  to_unstructured-Carries :
      (nm u : NodeMaintenance)
      → to_unstructured K P nm ≡ ok u
      → (u.meta.name ≡ P.json_text nm.meta.name) × Carries nm u
  unfolding to_unstructured
  to_unstructured-Carries nm u sent = elim (Result-cases (P.marshal_yaml nm)) [
    | inr (e, failed) ↦ absurd (ground (arith, sent, failed))
    | inl (b, written) ↦ elim (Result-cases (P.yaml_to_json b)) [
      | inr (e, failed) ↦ absurd (ground (arith, sent, written, failed))
      | inl (j, converted) ↦
          let (name, spec, anns) =
            laws.yaml_carries nm u b j written converted
              (ground (arith, sent, written, converted)) in
          (name, record { spec = spec; annotations = anns })
    ]
  ]

  -- The world stores, under the name, what the resource asks for, as JSON carries it.
  abbrev pub Holds : NodeMaintenance → Bytes → World → Type 0
  Holds nm name w = (nm' : NodeMaintenance) × (stored w name ≡ some nm') × Carries nm nm'

  -- The world stores what was sent under its name, which is a DNS name.
  abbrev Took : NodeMaintenance → World → Type 0
  Took u w =
      All IsPrintable u.meta.name
      × (nm' : NodeMaintenance) × (stored w u.meta.name ≡ some nm')
      × SameWish u nm'

  applied-Holds :
      (nm : NodeMaintenance) (name verb done : Bytes) (answer : Option Error × World)
      → (answer.0 ≡ none → Holds nm name answer.1)
      → (applied K P name verb done answer).0 ≡ none
      → Holds nm name (applied K P name verb done answer).1
  unfolding applied
  applied-Holds nm name verb done (some e, w) holds fine = absurd (ground arith)
  applied-Holds nm name verb done (none, w) holds fine =
      let (nm', there, same) = holds refl in
      (nm', laws.print_keeps (resource_line name done) name w ∙ there, same)

  -- What a call stored under the name of the object that was sent, which is the resource's.
  pub under_name :
      (nm u : NodeMaintenance) (w : World)
      → to_unstructured K P nm ≡ ok u
      → Took u w
      → Holds nm nm.meta.name w
  under_name nm u w sent (ascii, nm', there, same) =
      let (name, wish) = to_unstructured-Carries nm u sent in
      let kept = laws.json_text_ascii_back nm.meta.name (subst (All IsPrintable) name ascii) in
      (
        nm',
        subst (λ n. stored w n ≡ some nm') (name ∙ kept) there,
        record { spec = same.spec ∙ wish.spec; annotations = same.annotations ∙ wish.annotations },
      )

  apply_nm-Holds :
      (nm : NodeMaintenance) (w : World)
      → (apply_nm K P nm w).0 ≡ none
      → Holds nm nm.meta.name (apply_nm K P nm w).1
  unfolding apply_nm
  apply_nm-Holds nm w fine = elim (Result-cases (to_unstructured K P nm)) [
    | inr (e, failing) ↦ absurd (ground (arith, failing))
    | inl (u, sent) ↦
        let w' = (get_nm nm.meta.name w).1 in
        elim (Result-cases (get_nm nm.meta.name w).0) [
          | inl (existing, got) ↦
              rw (apply_nm, sent, got)
                (applied-Holds nm nm.meta.name (codes "update") (codes "updated")
                  (update_nm existing u w')
                  (λ done. under_name nm u _ sent (laws.update_nm_stores existing u w' done))
                  (rw (apply_nm, sent, got) at fine))
          | inr (e, lost) ↦ elim (Bool-cases (is_not_found e)) [
            | inl absent ↦
                rw (apply_nm, sent, lost, absent)
                  (applied-Holds nm nm.meta.name (codes "create") (codes "created") (create_nm u w')
                    (λ done. under_name nm u _ sent (laws.create_nm_stores u w' done))
                    (rw (apply_nm, sent, lost, absent) at fine))
            | inr other ↦ absurd (ground (arith, sent, lost, other))
          ]
        ]
  ]

  create_hint_keeps :
      (name body : Bytes) (paused : Bool) (w : World)
      → stored (create_hint K P name body paused w) name ≡ stored w name
  unfolding create_hint
  create_hint_keeps name [] true w = laws.print_keeps _ name _ ∙ laws.print_keeps _ name w
  create_hint_keeps name (c ∷ body) true w = laws.print_keeps _ name w
  create_hint_keeps name [] false w = refl
  create_hint_keeps name (c ∷ body) false w = refl

  create_nm_now-Holds :
      (name body : Bytes) (f : CreateFlags) (w : World)
      → (create_nm_now K P name body f w).0 ≡ none
      → Holds (build_nm name body f) name (create_nm_now K P name body f w).1
  unfolding create_nm_now build_nm
  create_nm_now-Holds name body f w fine =
      let nm = build_nm name body f in
      let w₁ = (new_clients K P w).1 in
      elim (Option-cases (new_clients K P w).0) [
        | inr (e, failing) ↦ absurd (ground (arith, failing))
        | inl connected ↦ elim (Option-cases (apply_nm K P nm w₁).0) [
          | inr (e, failing) ↦ absurd (ground (arith, connected, failing))
          | inl done ↦
              let (nm', there, same) = apply_nm-Holds nm w₁ done in
              (
                nm',
                rw (create_nm_now, connected, done)
                    (create_hint_keeps name body f.paused _ ∙ there),
                same,
              )
        ]
      ]

  create_body-Holds :
      (name body : Bytes) (f : CreateFlags) (w : World)
      → (f.dry_run || f.output_yaml) ≡ false
      → (create_body K P name body f w).0 ≡ none
      → (ltb max_inline_script_bytes (length body) ≡ false)
        × Holds (build_nm name body f) name (create_body K P name body f w).1
  unfolding create_body
  create_body-Holds name body f w real fine =
      elim (Bool-cases (ltb max_inline_script_bytes (length body))) [
        | inl large ↦ absurd (ground (arith, large))
        | inr fits ↦ (
          fits,
          rw (create_body, fits, real)
              (create_nm_now-Holds name body f w (rw (create_body, fits, real) at fine)),
        )
      ]

  -- What is stored is the resource as JSON carries it.
  pub create_carries :
      (name : Bytes) (f : CreateFlags) (w : World)
      → (f.dry_run || f.output_yaml) ≡ false
      → (create K P name f w).0 ≡ none
      → (flags_error f ≡ none)
        × (body : Bytes) × ((script_body K P f w).0 ≡ ok body)
        × (ltb max_inline_script_bytes (length body) ≡ false)
        × Holds (build_nm name body (overridden f)) name (create K P name f w).1
  unfolding create overridden
  create_carries name f w real fine = elim (Option-cases (flags_error f)) [
    | inr (e, failing) ↦ absurd (ground (arith, failing))
    | inl passed ↦ elim (Result-cases (script_body K P f w).0) [
      | inr (e, unread) ↦ absurd (ground (arith, passed, unread))
      | inl (body, loaded) ↦
          let (fits, holds) =
            create_body-Holds name body (overridden f) (script_body K P f w).1 real
              (rw (create, passed, loaded) at fine) in
          (passed, body, loaded, fits, rw (create, passed, loaded) holds)
    ]
  ]

  -- What `create` leaves behind. If it is no dry run and returns without an error, on a server that stores
  -- what it acknowledges, and encoding/json carries the resource that `buildNM` makes of the flags as it is,
  -- as it does if all its texts are valid UTF-8, then the flags passed their tests, the script is the inline
  -- one or the file's and has at most 900 KiB, and that resource, with its specification and annotations, is
  -- stored under the name, whether it was there before or not.
  pub create_stores :
      (name : Bytes) (f : CreateFlags) (w : World)
      → (f.dry_run || f.output_yaml) ≡ false
      → (create K P name f w).0 ≡ none
      → ((body : Bytes)
          → (script_body K P f w).0 ≡ ok body
          → Carried (build_nm name body (overridden f)))
      → (flags_error f ≡ none)
        × (body : Bytes) × ((script_body K P f w).0 ≡ ok body)
        × (ltb max_inline_script_bytes (length body) ≡ false)
        × (nm : NodeMaintenance) × (stored (create K P name f w).1 name ≡ some nm)
        × SameWish (build_nm name body (overridden f)) nm
  create_stores name f w real fine carried =
      let (passed, body, loaded, fits, (nm, there, wish)) = create_carries name f w real fine in
      let built = build_nm name body (overridden f) in
      let same = SameWish-of_Carries built nm (carried body loaded) wish in
      (passed, body, loaded, fits, nm, there, same)

  carried_names : (ns : List Bytes) → All IsNodeName ns → map P.json_text ns ≡ ns
  carried_names [] h = refl
  carried_names (n ∷ ns) (fine, rest) =
      ground (arith, laws.json_text_ascii n fine.1, carried_names ns rest)

  -- The names that are listed in a specification reach the controller through JSON.
  pub resolve_nodes-carried :
      (spec seen : NodeMaintenanceSpec) (n : Bytes) (ns : List Bytes) (v : World)
      → seen ≡ carried_spec K P spec
      → spec.all_nodes ≡ false
      → spec.node_names ≡ n ∷ ns
      → All IsNodeName (n ∷ ns)
      → (resolve_nodes K seen v).0 ≡ ok (sort (n ∷ ns))
  unfolding carried_spec
  resolve_nodes-carried spec seen n ns v same some_nodes listed names =
      let all : seen.all_nodes ≡ false = ap (λ s. s.all_nodes) same ∙ some_nodes in
      let named : seen.node_names ≡ n ∷ ns =
        ap (λ s. s.node_names) same ∙ ap (map P.json_text) listed ∙ carried_names (n ∷ ns) names in
      ap (λ x. x.0) (resolve_named K seen n ns v all named)
