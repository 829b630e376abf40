-- ===== src/Examples/StartTests.antt =====
-- A start of the manager on the small cluster, where every library call succeeds.
use kluster_one.Prelude.{List, [], ◌∷◌, none, Bytes, codes}
use kluster_one.Manager.Main.{Runtime, flags}
use kluster_one.Manager.Main.Starts.{Endings, manager_main-Endings}
use kluster_one.Examples.Cluster.{toy, toy_clock}
use kluster_one.Examples.Fixtures.{cluster}

abbrev calm_runtime : Runtime toy
calm_runtime = record {
  add_to_scheme = λ w. (none, w);
  parse = λ f args. flags f;
  get_config = λ w. (none, w);
  new_manager = λ probe metrics w. (none, w);
  new_for_config = λ w. (none, w);
  complete = λ r w. (none, w);
  add_healthz_check = λ name w. (none, w);
  add_readyz_check = λ name w. (none, w);
  start = λ r w. (none, w);
}

abbrev args : List Bytes
args = codes "--runner-keep-pods" ∷ []

manager_main-Endings_example : Endings toy toy_clock calm_runtime args cluster
manager_main-Endings_example = manager_main-Endings toy toy_clock calm_runtime args cluster
