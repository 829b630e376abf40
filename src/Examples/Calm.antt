-- ===== src/Examples/Calm.antt =====
-- A server of the small cluster that never refuses, and a user who has a paused run go on.
use kluster_one.Prelude.{
  ℕ, zero, suc, Bool, List, Error, map, ◌≡◌, refl, true, false, [], ◌∷◌, some, arith, All,
}
use kluster_one.Controller.Retry.{FlakyLaws}
use kluster_one.Controller.Retry.End.{Spares}
use kluster_one.Examples.Landings.{Announced}
use kluster_one.Examples.RetryTests.{found_resource, read_resource}
use kluster_one.Prelude.Strings.{bytes_eq_refl}
use kluster_one.Api.{NodeMaintenance}
use kluster_one.Examples.Cluster.{Cluster, toy, toy_resource}
use kluster_one.Examples.Fixtures.{fresh, tick}
use kluster_one.Examples.Pausing.{
  put_pause, repaused, found-put_pause, put_pause-SameRun, writes-put_pause,
}

pub never_refused :
    (nm : NodeMaintenance) (w : Cluster) (e : Error)
    → (toy.update_status nm w).0 ≡ some e
    → toy_resource.stored (toy.update_status nm w).1 nm.meta.name
      ≡ toy_resource.stored w nm.meta.name
never_refused nm w e h = ground (arith, h)

-- A server that never refuses.
abbrev pub calm_laws : FlakyLaws toy toy_resource.stored
calm_laws = record {
  current = λ w n. true;
  get_nm_named = λ n w nm h. found_resource n w.resource nm (read_resource n w nm h);
  get_nm_current = λ n w nm h now. read_resource n w nm h;
  get_nm_keeps = λ n w. refl;
  update_status_current = λ nm w h. refl;
  update_status_stores = λ nm w h. rw (bytes_eq_refl nm.meta.name) refl;
  update_status_refused = never_refused;
  apart = λ name. record {
    wait = λ p w. refl;
    list_nodes = λ sel w. refl;
    get_node = λ n w. refl;
    patch_node = λ n patch w. refl;
    list_pods = λ n w. refl;
    evict_pod = λ ns n g w. refl;
    get_pod = λ ns n w. refl;
    create_pod = λ p w. refl;
    delete_pod = λ ns n w. refl;
    get_logs = λ ns n c limit w. refl;
    create_config_map = λ cm w. refl;
    get_config_map = λ ns n w. refl;
    update_config_map = λ cm w. refl;
  };
}

abbrev resumes : Cluster → Cluster
resumes w = record (tick w) { resource = repaused false w.resource }

abbrev pub all_free : ℕ → List (Bool × (Cluster → Cluster))
all_free zero = []
all_free (suc n) = (true, resumes) ∷ all_free n

abbrev pub resumptions : ℕ → List (Cluster → Cluster)
resumptions n = map (λ e. e.1) (all_free n)

pub resumptions-Spares :
    (n : ℕ) → All (Spares toy toy_resource.stored fresh.meta.name) (resumptions n)
resumptions-Spares zero = tt
resumptions-Spares (suc n) = (
  λ w nm h. (
    put_pause false nm,
    found-put_pause false fresh.meta.name w.resource nm h,
    put_pause-SameRun false nm,
  ),
  resumptions-Spares n,
)

pub all_free-Announced :
    (n : ℕ) → All (Announced toy toy_resource.stored calm_laws fresh.meta.name) (all_free n)
all_free-Announced zero = tt
all_free-Announced (suc n) = (
  λ w nm h. (
    put_pause false nm,
    found-put_pause false fresh.meta.name w.resource nm h,
    λ sure. (writes-put_pause toy false nm refl, refl),
  ),
  all_free-Announced n,
)
