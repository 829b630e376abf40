-- ===== src/Examples/Pausing.antt =====
-- A user of the small cluster pauses and resumes a run.
use kluster_one.Prelude.{◌≡◌, refl, Bool, true, false, Option, none, some, Bytes, arith}
use kluster_one.Api.{NodeMaintenance}
use kluster_one.Kube.{Kube}
use kluster_one.Orchestrator.Nodes.{effective_actions}
use kluster_one.Controller.Retry.{writes}
use kluster_one.Controller.Retry.Same.{SameRun}
use kluster_one.Examples.Cluster.{find_resource}

abbrev pub put_pause : Bool → NodeMaintenance → NodeMaintenance
put_pause b nm = record nm { spec = record nm.spec { paused = b } }

abbrev pub repaused : Bool → Option NodeMaintenance → Option NodeMaintenance
repaused b none = none
repaused b (some nm) = some (put_pause b nm)

pub found-put_pause :
    (b : Bool) (n : Bytes) (r : Option NodeMaintenance) (nm : NodeMaintenance)
    → find_resource n r ≡ some nm
    → find_resource n (repaused b r) ≡ some (put_pause b nm)
found-put_pause b n none nm h = ground arith
found-put_pause b n (some x) nm h = ground (arith, h)

pub put_pause-SameRun : (b : Bool) (nm : NodeMaintenance) → SameRun nm (put_pause b nm)
unfolding effective_actions
put_pause-SameRun b nm = record {
  status = refl;
  plan = refl;
  all_nodes = refl;
  node_names = refl;
  node_selector = refl;
}

pub writes-put_pause :
    (K : Kube) (b : Bool) (nm : NodeMaintenance) → b ≡ false → writes K (put_pause b nm) ≡ true
unfolding writes
writes-put_pause K b nm h = ground (arith, h)
