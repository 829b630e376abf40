-- ===== src/Examples/RetryTests.antt =====
-- Runs on the small cluster where the API server refuses updates of the status while it
-- is busy, and where a user pauses and resumes the run.
use kluster_one.Prelude.{
  not, map, ◌≡◌, ◌≤◌, ◌∙◌, ap, refl, Bool, true, false, List, [], ◌∷◌, conflict, Option, none, some,
  ok, Error, Bytes, codes, arith, All, if◌then◌else◌,
}
use kluster_one.Prelude.Strings.{bytes_eq, bytes_eq_sound, bytes_eq_refl}
use kluster_one.Api.{NodeMaintenance}
use kluster_one.Kube.{Kube}
use kluster_one.Actions.Drain.Clock.{ClockLaws}
use kluster_one.Controller.Convergence.{reconciles}
use kluster_one.Controller.Retry.{FlakyLaws, succeeds}
use kluster_one.Controller.Retry.End.{landings, Spares}
use kluster_one.Controller.Retry.Course.{Finishes}
use kluster_one.Orchestrator.Course.{OnCourse}
use kluster_one.Manager.{manager_reconciler}
use kluster_one.Manager.Retry.{manager_keeps, manager_retries_end}
use kluster_one.Examples.Cluster.{Cluster, toy, toy_resource, find_resource}
use kluster_one.Examples.Fixtures.{name_a, name_b, fresh, seeded, cluster, flags, plan, tick}
use kluster_one.Examples.RunsTests.{seeded-Runs}
use kluster_one.Examples.Pausing.{
  put_pause, repaused, found-put_pause, put_pause-SameRun, writes-put_pause,
}
use kluster_one.Examples.Landings.{Announced, landings_count}

abbrev refusal : Error
refusal = record { reason = conflict; text = codes "the object has been modified" }

abbrev flaky : Kube
flaky = record toy {
  update_status =
      λ nm w. if w.busy then (some refusal, w) else (none, record w { resource = some nm });
}

flaky_clock : ClockLaws flaky
flaky_clock = record {
  wait_advances = λ p w h. omega arith;
  list_pods_later = λ n w. omega arith;
  evict_pod_later = λ ns n g w. omega arith;
  get_pod_later = λ ns n w. omega arith;
  get_nm_later = λ n w. omega arith;
}

pub found_resource :
    (n : Bytes) (r : Option NodeMaintenance) (nm : NodeMaintenance)
    → find_resource n r ≡ some nm
    → nm.meta.name ≡ n
found_resource n none nm h = ground arith
found_resource n (some x) nm h = ground (arith, h, bytes_eq_sound x.meta.name n)

pub read_resource :
    (n : Bytes) (w : Cluster) (nm : NodeMaintenance)
    → (toy.get_nm n w).0 ≡ ok nm
    → find_resource n w.resource ≡ some nm
read_resource n w nm h = ground (arith, h)

taken_when_free :
    (nm : NodeMaintenance) (w : Cluster) → (flaky.update_status nm w).0 ≡ none → not w.busy ≡ true
taken_when_free nm w h = ground (arith, h)

stored_when_taken :
    (nm : NodeMaintenance) (w : Cluster)
    → (flaky.update_status nm w).0 ≡ none
    → toy_resource.stored (flaky.update_status nm w).1 nm.meta.name ≡ some nm
stored_when_taken nm w h = ground (arith, h, bytes_eq_refl nm.meta.name)

kept_when_refused :
    (nm : NodeMaintenance) (w : Cluster) (e : Error)
    → (flaky.update_status nm w).0 ≡ some e
    → toy_resource.stored (flaky.update_status nm w).1 nm.meta.name
      ≡ toy_resource.stored w nm.meta.name
kept_when_refused nm w e h = ground (arith, h)

abbrev flaky_laws : FlakyLaws flaky toy_resource.stored
flaky_laws = record {
  current = λ w n. not w.busy;
  get_nm_named = λ n w nm h. found_resource n w.resource nm (read_resource n w nm h);
  get_nm_current = λ n w nm h now. read_resource n w nm h;
  get_nm_keeps = λ n w. refl;
  update_status_current = taken_when_free;
  update_status_stores = stored_when_taken;
  update_status_refused = kept_when_refused;
  apart = λ name. record {
    wait = λ p w. refl;
    list_nodes = λ sel w. refl;
    get_node = λ n w. refl;
    patch_node = λ n patch w. refl;
    list_pods = λ n w. refl;
    evict_pod = λ ns n g w. refl;
    get_pod = λ ns n w. refl;
    create_pod = λ p w. refl;
    delete_pod = λ ns n w. refl;
    get_logs = λ ns n c limit w. refl;
    create_config_map = λ cm w. refl;
    get_config_map = λ ns n w. refl;
    update_config_map = λ cm w. refl;
  };
}

-- Changes between two passes: the clock goes on, and either the server is free and the user has the run go
-- on, or the server is busy and the user has paused the run.
abbrev goes : Bool → Cluster → Cluster
goes free w = record (tick w) { busy = not free; resource = repaused (not free) w.resource }

abbrev announce : List Bool → List (Bool × (Cluster → Cluster))
announce = map (λ b. (b, goes b))

-- The first three passes do not land, and the eleven after them do.
abbrev free : List Bool
free =
    false ∷ false ∷ false ∷ true ∷ true ∷ true ∷ true ∷ true ∷ true ∷ true ∷ true ∷ true ∷ true
    ∷ true ∷ []

abbrev schedule : List (Bool × (Cluster → Cluster))
schedule = announce free

abbrev changes : List (Cluster → Cluster)
changes = map (λ e. e.1) schedule

goes-Spares : (b : Bool) → Spares flaky toy_resource.stored fresh.meta.name (goes b)
goes-Spares b w nm h = (
  put_pause (not b) nm,
  found-put_pause (not b) fresh.meta.name w.resource nm h,
  put_pause-SameRun (not b) nm,
)

announce-Spares :
    (bs : List Bool)
    → All (Spares flaky toy_resource.stored fresh.meta.name) (map (λ e. e.1) (announce bs))
announce-Spares [] = tt
announce-Spares (b ∷ bs) = (goes-Spares b, announce-Spares bs)

free_or_busy : (b : Bool) → not (not b) ≡ b
free_or_busy true = refl
free_or_busy false = refl

announce-Announced :
    (bs : List Bool)
    → All (Announced flaky toy_resource.stored flaky_laws fresh.meta.name) (announce bs)
announce-Announced [] = tt
announce-Announced (b ∷ bs) = (
  λ w nm h. (
    put_pause (not b) nm,
    found-put_pause (not b) fresh.meta.name w.resource nm h,
    λ sure. (writes-put_pause flaky (not b) nm (ap not sure), free_or_busy b ∙ sure),
  ),
  announce-Announced bs,
)

accepted_when_free :
    (nm : NodeMaintenance) (w : Cluster)
    → not w.busy ≡ true
    → succeeds flaky (flaky.update_status nm w).0 ≡ true
accepted_when_free nm w h = ground (arith, h)

landed :
    11 ≤ landings flaky (manager_reconciler flaky flaky_clock flags) fresh.meta.name changes cluster
unfolding bytes_eq
landed =
    landings_count flaky toy_resource.stored flaky_laws fresh.meta.name
      (manager_reconciler flaky flaky_clock flags)
      (manager_keeps flaky flaky_clock toy_resource.stored flaky_laws flags fresh.meta.name)
      (λ w nm here. (toy_resource.get_nm_stored fresh.meta.name w nm here).0) accepted_when_free
      schedule cluster seeded (announce-Announced free) refl

seeded-OnCourse : OnCourse plan (name_a ∷ name_b ∷ []) seeded
seeded-OnCourse = record { run = seeded-Runs; named = refl; settled = λ h. ground (arith, h) }

manager_retries_end_example :
    Finishes flaky toy_resource.stored fresh.meta.name plan (name_a ∷ name_b ∷ []) (
      reconciles flaky (manager_reconciler flaky flaky_clock flags) fresh.meta.name changes cluster)
unfolding bytes_eq
manager_retries_end_example =
    manager_retries_end flaky flaky_clock toy_resource.stored flaky_laws flags plan
      (name_a ∷ name_b ∷ []) fresh.meta.name changes cluster seeded (announce-Spares free) refl
      seeded-OnCourse (omega (arith, landed))
