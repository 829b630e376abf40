-- ===== src/Cli/Commands/Pausing.antt =====
-- internal/cli/attach_run.go: `pause` and `run` one after the other, and with the controller.
use kluster_one.Prelude.{
  ◌≡◌, refl, ◌∙◌, ap, sym, inl, inr, Bool, true, false, ◌&&◌, List, [], ◌∷◌, none, some, Result, ok,
  ◌⊎◌, Bytes, codes, if◌then◌else◌, arith,
}
use kluster_one.Prelude.Strings.{bytes_eq, bytes_eq_refl, lookup}
use kluster_one.Api.{NodeMaintenance, NodeMaintenanceSpec}
use kluster_one.Kube.{Kube}
use kluster_one.Actions.{Registry}
use kluster_one.Controller.{Reconciler, reconcile}
use kluster_one.Controller.Idle.{reconcile-AtRest, with}
use kluster_one.Cli.Plugin.{Plugin}
use kluster_one.Cli.Commands.Merge.{
  PatchLaws, merge_annotations, rest_of, remove_absent, remove-insert, remove,
}
use kluster_one.Cli.Commands.Stores.{set_paused-PausedAs, set_paused-Merged, fetch_stored}
use kluster_one.Cli.Commands.Whole.{pause-PausedAs}
use kluster_one.Cli.Commands.{
  bool_eq, current_reason, pause_line, pause_patch, marshal_patch, fetch, set_paused, set_paused_nm,
  pause, pause_reason_annotation,
}

bool_eq_refl : (a b : Bool) → a ≡ b → bool_eq a b ≡ true
bool_eq_refl a b h = ground arith

desired_carried :
    (text : Bytes → Bytes) (paused : Bool) (reason : Bytes)
    → text reason ≡ reason
    → let desired = if paused then reason else [] in (desired ≡ []) ⊎ (text desired ≡ desired)
desired_carried text true reason h = inr h
desired_carried text false reason h = inl refl

spec_back :
    (a b : NodeMaintenanceSpec)
    → rest_of b ≡ rest_of a
    → b.paused ≡ a.paused
    → b.script ≡ a.script
    → b ≡ a
spec_back a b r p s =
    let put : NodeMaintenanceSpec → NodeMaintenanceSpec =
      λ x. record x { paused = b.paused; script = b.script } in
    let filled : put a ≡ a = rw (p, s) refl in ap put r ∙ filled

module _ (K : Kube) (P : Plugin K) (laws : PatchLaws K P) where
  open K use {World}
  open P use {print}
  open laws.resource use {stored}

  -- The annotation that a pause puts in, the run takes out.
  annotations_back :
      (reason : Bytes) (m : List (Bytes × Bytes))
      → lookup pause_reason_annotation m ≡ none
      → merge_annotations
          (marshal_patch K P (pause_patch false [])).annotations
          (merge_annotations (marshal_patch K P (pause_patch true reason)).annotations m)
        ≡ m
  unfolding pause_patch merge_annotations marshal_patch
  annotations_back [] m h =
      ap (remove pause_reason_annotation) (remove_absent pause_reason_annotation m h)
      ∙ remove_absent pause_reason_annotation m h
  annotations_back (c ∷ r) m h = remove-insert pause_reason_annotation (P.json_text (c ∷ r)) m h

  -- A second call of `setPaused` with the same wish sends no patch: where the first one, with a reason that
  -- encoding/json leaves as it is, returned without an error on a stored resource, the second one reads the resource, says that it is so already, and
  -- does nothing else.
  pub set_paused_twice :
      (name : Bytes) (paused : Bool) (reason : Bytes) (w : World) (nm : NodeMaintenance)
      → P.json_text reason ≡ reason
      → stored w name ≡ some nm
      → (set_paused K P name paused reason w).0 ≡ none
      → let w' = (set_paused K P name paused reason w).1 in
        let desired = if paused then reason else [] in
        set_paused K P name paused reason w' ≡ (
          none,
          print
              (pause_line name (codes "already ") paused desired (codes "running"))
              (fetch K P name w').1,
        )
  unfolding set_paused set_paused_nm
  set_paused_twice name paused reason w nm carried h fine =
      let (nm', there, so) = set_paused-PausedAs K P laws name paused reason w nm h fine in
      let w' = (set_paused K P name paused reason w).1 in
      let desired = if paused then reason else [] in
      let (got, _) = fetch_stored K P laws name w' nm' there in
      let sent = desired_carried P.json_text paused reason carried in
      let shown : current_reason nm' ≡ desired = so.reason_is sent in
      let same : (bool_eq nm'.spec.paused paused && bytes_eq (current_reason nm') desired) ≡ true =
        rw (bool_eq_refl nm'.spec.paused paused so.paused_is, shown) (bytes_eq_refl desired) in
      rw (set_paused, got, set_paused_nm, same, shown) refl

  -- The cluster as the controller sees it, which reads resources from its cache.
  abbrev pub cached : (Bytes → World → Result NodeMaintenance × World) → Kube
  cached read = record K { get_nm = read }

  -- A pause stops the controller. Let `kubectl nm pause` return without an error on a stored resource. Then,
  -- as long as the resource is stored as the pause left it, a Reconcile runs no action, whichever are
  -- registered, if the controller's cache has caught up: if what it reads, where the read succeeds, is the
  -- stored resource. (On an older copy a Reconcile may still run one.)
  pub pause_stops_reconcile :
      (read : Bytes → World → Result NodeMaintenance × World) (r : Reconciler (cached read))
      (reg : Registry (cached read)) (name reason : Bytes) (w v : World) (nm : NodeMaintenance)
      → stored w name ≡ some nm
      → (pause K P name reason w).0 ≡ none
      → stored v name ≡ stored (pause K P name reason w).1 name
      → ((seen : NodeMaintenance) → (read name v).0 ≡ ok seen → stored v name ≡ some seen)
      → reconcile (cached read) (with (cached read) r reg) name v ≡ reconcile (cached read) r name v
  pause_stops_reconcile read r reg name reason w v nm h fine kept current =
      let (nm', there, so) = pause-PausedAs K P laws name reason w nm h fine in
      reconcile-AtRest (cached read) r reg name v (λ seen got.
        let here = sym (kept ∙ there) ∙ current seen got in
        let same : nm' ≡ seen = ground (arith, here) in inr (inl (rw (sym same) so.paused_is)))

  -- A run undoes a pause. Of a stored resource that is neither paused nor annotated with a reason, a pause
  -- with any reason and a run, both returning without an error, leave the specification, the annotations
  -- and the status as they were.
  pub set_paused_and_back :
      (name reason : Bytes) (w : World) (nm : NodeMaintenance)
      → stored w name ≡ some nm
      → nm.spec.paused ≡ false
      → lookup pause_reason_annotation nm.meta.annotations ≡ none
      → let (e, w₁) = set_paused K P name true reason w in
        let (e', w₂) = set_paused K P name false [] w₁ in
        e ≡ none
        → e' ≡ none
        → (nm' : NodeMaintenance) × (stored w₂ name ≡ some nm')
          × (nm'.spec ≡ nm.spec)
          × (nm'.meta.annotations ≡ nm.meta.annotations)
          × (nm'.status ≡ nm.status)
  set_paused_and_back name reason w nm h active bare fine fine' =
      let (nm₁, there, m) =
        set_paused-Merged K P laws name true reason w nm h (rw active refl) fine in
      let w₁ = (set_paused K P name true reason w).1 in
      let held : nm₁.spec.paused ≡ true = unfold pause_patch marshal_patch in m.paused in
      let (nm₂, there₂, m₂) =
        set_paused-Merged K P laws name false [] w₁ nm₁ there (rw held refl) fine' in
      let script : nm₂.spec.script ≡ nm.spec.script =
        unfold pause_patch marshal_patch in m₂.script refl ∙ m.script refl in
      let free : nm₂.spec.paused ≡ nm.spec.paused =
        unfold pause_patch marshal_patch in m₂.paused ∙ sym active in
      (
        nm₂,
        there₂,
        spec_back nm.spec nm₂.spec (m₂.rest ∙ m.rest) free script,
        m₂.annotations
            ∙ ap (merge_annotations (marshal_patch K P (pause_patch false [])).annotations)
                m.annotations
            ∙ annotations_back reason nm.meta.annotations bare,
        m₂.status ∙ m.status,
      )
