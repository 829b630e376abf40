-- ===== src/Cli/Commands/Stores.antt =====
-- internal/cli/attach_run.go: what each command leaves stored when it returns without an error.
use kluster_one.Prelude.{
  ◌≡◌, refl, ◌∙◌, ap, ◌⊎◌, length, Option, inl, inr, Bool, true, false, ◌&&◌, List, [], ◌∷◌, none,
  some, ok, Bytes, codes, if◌then◌else◌, arith, Bool-cases, Option-cases,
}
use kluster_one.Prelude.Strings.{bytes_eq, bytes_eq_sound}
use kluster_one.Api.{NodeMaintenance}
use kluster_one.Kube.{Kube}
use kluster_one.Cli.Plugin.{Plugin, MergePatch}
use kluster_one.Cli.Commands.Merge.{
  PatchLaws, Merged, merge_annotations, rest_of, lookup-remove, lookup-insert, remove, remove_twice,
  remove-insert_any,
}
use kluster_one.Cli.Commands.{
  current_reason, bool_eq, pause_line, pause_patch, fetch, marshal_patch, send_patch, set_paused_nm,
  set_paused, pause_reason_annotation,
}

-- The second resource is the first one with the pause state given, where the reason is as package
-- encoding/json carries it.
pub record PausedAs (text : Bytes → Bytes) (paused : Bool) (reason : Bytes)
    (nm nm' : NodeMaintenance) : Type 0 where
  pub paused_is : nm'.spec.paused ≡ paused
  pub reason_is : (reason ≡ []) ⊎ (text reason ≡ reason) → current_reason nm' ≡ reason
  pub others :
      remove pause_reason_annotation nm'.meta.annotations
      ≡ remove pause_reason_annotation nm.meta.annotations
  pub script : nm'.spec.script ≡ nm.spec.script
  pub rest : rest_of nm'.spec ≡ rest_of nm.spec
  pub status : nm'.status ≡ nm.status
  pub name : nm'.meta.name ≡ nm.meta.name

bool_eq_sound : (a b : Bool) → bool_eq a b ≡ true → a ≡ b
bool_eq_sound a b h = ground arith

unchanged-PausedAs :
    (text : Bytes → Bytes) (paused : Bool) (reason : Bytes) (nm : NodeMaintenance)
    → (bool_eq nm.spec.paused paused && bytes_eq (current_reason nm) reason) ≡ true
    → PausedAs text paused reason nm nm
unchanged-PausedAs text paused reason nm h = record {
  paused_is = bool_eq_sound nm.spec.paused paused (ground arith);
  reason_is = λ _. bytes_eq_sound (current_reason nm) reason (ground arith);
  others = refl;
  script = refl;
  rest = refl;
  status = refl;
  name = refl;
}

module _ (K : Kube) (P : Plugin K) (laws : PatchLaws K P) where
  open K use {World, get_nm}
  open P use {print, warn, patch_nm}
  open laws.resource use {stored}

  -- What a pause sends of its annotations.
  abbrev sent_annotations : Bool → Bytes → List (Bytes × Option Bytes)
  sent_annotations paused reason = (marshal_patch K P (pause_patch paused reason)).annotations

  -- The reason behind the patch, for no reason and for a text.
  reason_merged :
      (reason : Bytes) (m : List (Bytes × Bytes)) (nm : NodeMaintenance) (paused : Bool)
      → nm.meta.annotations ≡ merge_annotations (sent_annotations paused reason) m
      → (reason ≡ []) ⊎ (P.json_text reason ≡ reason)
      → current_reason nm ≡ reason
  unfolding current_reason pause_patch merge_annotations marshal_patch
  reason_merged [] m nm paused h carried =
      ground (arith, h, lookup-remove pause_reason_annotation m)
  reason_merged (c ∷ r) m nm paused h (inl bare) = absurd (omega (arith, ap length bare))
  reason_merged (c ∷ r) m nm paused h (inr carried) =
      ground (arith, h, lookup-insert pause_reason_annotation (P.json_text (c ∷ r)) m, carried)

  others_merged :
      (reason : Bytes) (m : List (Bytes × Bytes)) (paused : Bool)
      → remove pause_reason_annotation (merge_annotations (sent_annotations paused reason) m)
        ≡ remove pause_reason_annotation m
  unfolding pause_patch merge_annotations marshal_patch
  others_merged [] m paused = remove_twice pause_reason_annotation m
  others_merged (c ∷ r) m paused = remove-insert_any pause_reason_annotation (P.json_text (c ∷ r)) m

  PausedAs-of_Merged :
      (paused : Bool) (reason : Bytes) (nm nm' : NodeMaintenance)
      → Merged (marshal_patch K P (pause_patch paused reason)) nm nm'
      → PausedAs P.json_text paused reason nm nm'
  unfolding pause_patch marshal_patch
  PausedAs-of_Merged paused reason nm nm' m = record {
    paused_is = m.paused;
    reason_is = reason_merged reason nm.meta.annotations nm' paused m.annotations;
    others =
        ap (remove pause_reason_annotation) m.annotations
        ∙ others_merged reason nm.meta.annotations paused;
    script = m.script refl;
    rest = m.rest;
    status = m.status;
    name = m.name;
  }

  pub fetch_stored :
      (name : Bytes) (w : World) (nm : NodeMaintenance)
      → stored w name ≡ some nm
      → ((fetch K P name w).0 ≡ ok nm) × (stored (fetch K P name w).1 name ≡ some nm)
  unfolding fetch
  fetch_stored name w nm h =
      let (got, kept) = laws.resource.get_nm_stored name w nm h in rw (fetch, got) (refl, kept)

  -- The world that a step leaves stores a resource of which `Q` holds.
  abbrev pub Leads : (NodeMaintenance → Type 0) → Bytes → World → Type 0
  Leads Q name w = (nm : NodeMaintenance) × (stored w name ≡ some nm) × Q nm

  pub send_patch-Merged :
      (name : Bytes) (p : MergePatch) (next : World → World) (w : World) (nm : NodeMaintenance)
      → ((v : World) → stored (next v) name ≡ stored v name)
      → stored w name ≡ some nm
      → (send_patch K P name p next w).0 ≡ none
      → Leads (Merged (marshal_patch K P p) nm) name (send_patch K P name p next w).1
  unfolding send_patch
  send_patch-Merged name p next w nm keeps h fine =
      elim (Option-cases (patch_nm name (marshal_patch K P p) w).0) [
        | inr (e, failing) ↦ absurd (ground (arith, failing))
        | inl sent ↦
            let (nm', there, merged) =
              laws.patch_nm_merges name (marshal_patch K P p) w nm h sent in
            (
              nm',
              rw (send_patch, sent) (keeps (patch_nm name (marshal_patch K P p) w).1 ∙ there),
              merged,
            )
      ]

  set_paused_nm-PausedAs :
      (name : Bytes) (paused : Bool) (reason : Bytes) (w : World) (nm : NodeMaintenance)
      → stored w name ≡ some nm
      → (set_paused_nm K P name paused reason nm w).0 ≡ none
      → Leads
          (PausedAs P.json_text paused (if paused then reason else []) nm)
          name
          (set_paused_nm K P name paused reason nm w).1
  unfolding set_paused_nm
  set_paused_nm-PausedAs name paused reason w nm h fine =
      let desired = if paused then reason else [] in
      elim (Bool-cases (bool_eq nm.spec.paused paused && bytes_eq (current_reason nm) desired)) [
        | inl same ↦ (
          nm,
          rw (set_paused_nm, same) (laws.print_keeps _ name w ∙ h),
          unchanged-PausedAs P.json_text paused desired nm same,
        )
        | inr differs ↦
            let line = pause_line name [] paused desired (codes "unpaused") in
            let (nm', there, merged) =
              send_patch-Merged name (pause_patch paused desired) (print line) w nm
                (laws.print_keeps line name) h (rw differs at fine) in
            (
              nm',
              rw (set_paused_nm, differs) there,
              PausedAs-of_Merged paused desired nm nm' merged,
            )
      ]

  pub set_paused-PausedAs :
      (name : Bytes) (paused : Bool) (reason : Bytes) (w : World) (nm : NodeMaintenance)
      → stored w name ≡ some nm
      → (set_paused K P name paused reason w).0 ≡ none
      → Leads
          (PausedAs P.json_text paused (if paused then reason else []) nm)
          name
          (set_paused K P name paused reason w).1
  unfolding set_paused
  set_paused-PausedAs name paused reason w nm h fine =
      let (got, kept) = fetch_stored name w nm h in
      let (nm', there, so) =
        set_paused_nm-PausedAs name paused reason (fetch K P name w).1 nm kept
          (rw (got, set_paused) at fine) in
      (nm', rw (set_paused, got) there, so)

  set_paused_nm-Merged :
      (name : Bytes) (paused : Bool) (reason : Bytes) (w : World) (nm : NodeMaintenance)
      → stored w name ≡ some nm
      → bool_eq nm.spec.paused paused ≡ false
      → (set_paused_nm K P name paused reason nm w).0 ≡ none
      → Leads
          (Merged (marshal_patch K P (pause_patch paused (if paused then reason else []))) nm)
          name
          (set_paused_nm K P name paused reason nm w).1
  unfolding set_paused_nm
  set_paused_nm-Merged name paused reason w nm h turns fine =
      let desired = if paused then reason else [] in
      let line = pause_line name [] paused desired (codes "unpaused") in
      let (nm', there, merged) =
        send_patch-Merged name (pause_patch paused desired) (print line) w nm
          (laws.print_keeps line name) h (rw (turns, set_paused_nm) at fine) in
      (nm', rw (set_paused_nm, turns) there, merged)

  -- A call that turns the pause on or off sends the patch.
  pub set_paused-Merged :
      (name : Bytes) (paused : Bool) (reason : Bytes) (w : World) (nm : NodeMaintenance)
      → stored w name ≡ some nm
      → bool_eq nm.spec.paused paused ≡ false
      → (set_paused K P name paused reason w).0 ≡ none
      → Leads
          (Merged (marshal_patch K P (pause_patch paused (if paused then reason else []))) nm)
          name
          (set_paused K P name paused reason w).1
  unfolding set_paused
  set_paused-Merged name paused reason w nm h turns fine =
      let (got, kept) = fetch_stored name w nm h in
      let (nm', there, merged) =
        set_paused_nm-Merged name paused reason (fetch K P name w).1 nm kept turns
          (rw (got, set_paused) at fine) in
      (nm', rw (set_paused, got) there, merged)
