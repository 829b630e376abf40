-- ===== src/Examples/Landings.antt =====
-- How many passes land on a server whose reads do not fail, and that refuses old objects only: at least the
-- announced ones.
use kluster_one.Prelude.{
  ◌≡◌, ◌≤◌, true, Bool-cases, inl, inr, ap, ◌∙◌, Bool, List, [], ◌∷◌, map, Option, some, ok, Bytes,
  arith, All, count_if,
}
use kluster_one.Api.{NodeMaintenance}
use kluster_one.Kube.{Kube}
use kluster_one.Actions.Apart.{AllKeepView}
use kluster_one.Controller.{Reconciler, reconcile}
use kluster_one.Controller.Retry.{FlakyLaws, sent, lands, writes, succeeds, view, sent_view}
use kluster_one.Controller.Retry.Pass.{pass_keeps_ask}
use kluster_one.Controller.Retry.End.{landings}

module _ (K : Kube) (stored : K.World → Bytes → Option NodeMaintenance) (laws : FlakyLaws K stored)
    (name : Bytes) where
  open K use {World, get_nm}
  open laws use {current}

  -- A change that keeps the resource in the store, and whether it announces that the next pass writes and
  -- reads a current object.
  abbrev pub Announced : Bool × (World → World) → Type 0
  Announced (b, change) =
      (w : World) (nm : NodeMaintenance)
      → stored w name ≡ some nm
      → (nm' : NodeMaintenance) × (stored (change w) name ≡ some nm')
        × (b ≡ true → (writes K nm' ≡ true) × (current (get_nm name (change w)).1 name ≡ true))

module _ (K : Kube) (stored : K.World → Bytes → Option NodeMaintenance) (laws : FlakyLaws K stored)
    (name : Bytes) (r : Reconciler K) (keep : AllKeepView K _ (view K stored laws name) r.registry)
    (reads : (w : K.World) (nm : NodeMaintenance)
      → stored w name ≡ some nm
      → (K.get_nm name w).0 ≡ ok nm)
    (accepts : (nm : NodeMaintenance) (w : K.World)
      → laws.current w nm.meta.name ≡ true
      → succeeds K (K.update_status nm w).0 ≡ true) where
  open K use {World, get_nm}
  open laws use {current}

  lands_current :
      (w : World) (nm : NodeMaintenance)
      → stored w name ≡ some nm
      → writes K nm ≡ true
      → current (get_nm name w).1 name ≡ true
      → lands K r name w ≡ true
  unfolding lands
  lands_current w nm here writing now =
      let got = reads w nm here in
      let w₁ = (get_nm name w).1 in
      let (new, before) = sent K r nm w₁ in
      let (same, seen) = sent_view K stored laws r nm name w₁ keep in
      let named = ap (λ a. a.0.name) same ∙ laws.get_nm_named name w nm got in
      let taken = accepts new before (ap (current before) named ∙ ap (λ v. v.1) seen ∙ now) in
      rw (lands, got, writing) taken

  pub landings_count :
      (bs : List (Bool × (World → World))) (w : World) (nm : NodeMaintenance)
      → All (Announced K stored laws name) bs
      → stored w name ≡ some nm
      → count_if (λ e. e.0) bs ≤ landings K r name (map (λ e. e.1) bs) w
  unfolding landings
  landings_count [] w nm told here = omega arith
  landings_count ((b, change) ∷ more) w nm (said, told) here =
      let (x, here', sure) = said w nm here in
      let (nm', there, _) = pass_keeps_ask K stored laws r name (change w) x keep here' in
      let rest = landings_count more (reconcile K r name (change w)).2 nm' told there in
      elim (Bool-cases b) [
        | inr unsaid ↦ ground (arith, unsaid, rest)
        | inl promised ↦
            let (writing, now) = sure promised in
            let landed = lands_current (change w) x here' writing now in
            ground (arith, promised, landed, rest)
      ]
