-- ===== src/Controller/State.antt =====
-- What a reconciliation reads and changes: the node in memory, the rate limiter, the cluster behind
-- the Kubernetes client, and the events and metrics that go out. Log lines are left out.
use tao_node_guardian.Base.{ℕ, String, List, ◌∷◌}
use tao_node_guardian.Base.Dict.{Dict}
use tao_node_guardian.Base.Errors.{Result}
use tao_node_guardian.Base.Format.{Arg, Formatted}
use tao_node_guardian.Api.Status.{TaoNode, TaoNodeStatus, TaoNodePhase, ConditionStatus}
use tao_node_guardian.Controller.Conditions.{ConditionOps, set_condition}
use tao_node_guardian.Controller.RateLimiter.{RecoveryRateLimiter}

pub data EventType : Type 0 where
  normal warning : EventType

-- `event` is a call of the recorder about the node, `gauge` and `observe` set and observe a metric,
-- and `inc` counts one up. The name of a metric is its variable in the source.
pub data Output : Type 0 where
  event : EventType → String → Formatted → Output
  gauge : String → List String → Arg → Output
  inc : String → List String → Output
  observe : String → List String → Output

pub record Pod : Type 0 where
  pub name : String
  pub namespace_ : String
  pub pod_ip : String

-- A VolumeSnapshot as it is created, and as a list shows it.
pub record SnapshotRequest : Type 0 where
  pub name : Formatted
  pub namespace_ : String
  pub labels : Dict Formatted
  pub reason : String
  pub node_name : String
  pub timestamp : ℕ
  pub owner : String
  pub class : String
  pub pvc_name : String

pub record Snapshot : Type 0 where
  pub name : String
  pub created : ℕ

-- The calls of the Kubernetes client on pods and snapshots: `W` is the state of the cluster, and a
-- call that writes may change it, also when it fails.
pub record KubeClient (W : Type 0) : Type 0 where
  pub get_pod : String → String → W → Result Pod
  pub delete_pod : Pod → W → Result (Unit {0}) × W
  pub create_snapshot : SnapshotRequest → W → Result (Unit {0}) × W
  pub list_snapshots : String → Dict Formatted → W → Result (List Snapshot)
  pub delete_snapshot : Snapshot → W → Result (Unit {0}) × W

-- `outputs` has the newest first.
pub record Run (Q W : Type 0) : Type 0 where
  pub node : TaoNode Q
  pub limiter : RecoveryRateLimiter
  pub world : W
  pub outputs : List Output

module _ {Q W : Type 0} where
  abbrev pub put_status : TaoNodeStatus → Run Q W → Run Q W
  put_status st s = let tn = record (s.node) { status = st } in record s { node = tn }

  abbrev pub set_phase : TaoNodePhase → Run Q W → Run Q W
  set_phase p s = let st = record (s.node.status) { phase = p } in put_status st s

  abbrev pub emit : Output → Run Q W → Run Q W
  emit o s = record s { outputs = o ∷ s.outputs }

  unfoldable pub set_cond :
      ConditionOps → ℕ → String → ConditionStatus → String → Formatted → Run Q W → Run Q W
  unfolding set_condition
  set_cond ops now cond_type status reason message s = record s {
    node = set_condition ops now cond_type status reason message s.node;
  }

  abbrev pub phase_of : Run Q W → TaoNodePhase
  phase_of s = s.node.status.phase
