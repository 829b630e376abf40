-- ===== src/Actions/Drain/Clock.antt =====
-- What the polling loops rely on of time: no call turns the clock back, and a wait that is not cut short
-- by the context takes at least as long as was asked.
use kluster_one.Prelude.{ℕ, ◌+◌, ◌≤◌, ◌≡◌, none, Bytes, Option}
use kluster_one.Prelude.Int.{ℤ, pos}
use kluster_one.Kube.{Kube}

pub record ClockLaws (K : Kube) : Type 0 where
  pub wait_advances :
      (p : ℕ) (w : K.World) → (K.wait (pos p) w).0 ≡ none → K.now w + p ≤ K.now (K.wait (pos p) w).1
  pub list_pods_later : (n : Bytes) (w : K.World) → K.now w ≤ K.now (K.list_pods n w).1
  pub evict_pod_later :
      (ns n : Bytes) (g : Option ℤ) (w : K.World) → K.now w ≤ K.now (K.evict_pod ns n g w).1
  pub get_pod_later : (ns n : Bytes) (w : K.World) → K.now w ≤ K.now (K.get_pod ns n w).1
  pub get_nm_later : (n : Bytes) (w : K.World) → K.now w ≤ K.now (K.get_nm n w).1
