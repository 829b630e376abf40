-- ===== src/Examples/Ticks.antt =====
-- Changes of the small cluster between two passes: the clock goes on.
use kluster_one.Prelude.{ℕ, zero, suc, List, [], ◌∷◌}
use kluster_one.Examples.Cluster.{Cluster}
use kluster_one.Examples.Fixtures.{tick}

abbrev pub ticks : ℕ → List (Cluster → Cluster)
ticks zero = []
ticks (suc n) = tick ∷ ticks n
