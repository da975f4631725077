-- ===== src/Api/Status.antt =====
-- The observed state: the status types of api/v1alpha1/taonode_types.go, and the TaoNode itself.
-- A time is a number of nanoseconds, and a formatted text keeps its format and its arguments.
use tao_node_guardian.Base.{ℕ, String, Bool, Option, List}
use tao_node_guardian.Base.Int.{ℤ}
use tao_node_guardian.Base.Format.{Formatted}
use tao_node_guardian.Api.Spec.{TaoNodeSpec}

-- `unset` is the empty text, which a new object has.
pub data TaoNodePhase : Type 0 where
  unset pending syncing synced degraded recovering failed : TaoNodePhase

pub data ConditionStatus : Type 0 where
  is_true is_false is_unknown : ConditionStatus

pub record Condition : Type 0 where
  pub type_ : String
  pub status : ConditionStatus
  pub observed_generation : ℤ
  pub last_transition_time : ℕ
  pub reason : String
  pub message : Formatted

pub record SyncStateStatus : Type 0 where
  pub state : String
  pub current_block : ℤ
  pub network_block : ℤ
  pub block_lag : ℤ
  pub sync_percentage : Formatted
  pub last_synced_at : Option ℕ

pub record ChainStatus : Type 0 where
  pub peer_count : ℤ
  pub finalized_block : ℤ
  pub runtime_version : String
  pub epoch : ℤ

pub record ResourceStatus : Type 0 where
  pub disk_usage_percent : ℤ
  pub gpu_utilization_percent : Option ℤ
  pub estimated_monthly_usd : Formatted

pub record SnapshotStatus : Type 0 where
  pub last_snapshot_time : Option ℕ
  pub last_snapshot_size : ℤ
  pub available_snapshots : ℤ

pub record AnomalyScoreStatus : Type 0 where
  pub type_ : String
  pub score : Formatted
  pub detail : String
  pub detected_at : Option ℕ

pub record AnalyticsStatusBlock : Type 0 where
  pub connected : Bool
  pub last_ingestion_time : Option ℕ
  pub rows_ingested24h : ℤ
  pub anomaly_scores : List AnomalyScoreStatus
  pub ingestion_lag_ms : ℤ

pub record AiIncidentReportStatus : Type 0 where
  pub timestamp : Option ℕ
  pub severity : String
  pub summary : String
  pub root_cause_category : String
  pub recommended_action : String
  pub confidence : Formatted

pub record AiAdvisoryStatus : Type 0 where
  pub last_report : Option AiIncidentReportStatus
  pub model_available : Bool
  pub inferences_total24h : ℤ
  pub avg_inference_latency_ms : ℤ

pub record TaoNodeStatus : Type 0 where
  pub phase : TaoNodePhase
  pub sync_state : SyncStateStatus
  pub chain : ChainStatus
  pub resources : ResourceStatus
  pub snapshot : Option SnapshotStatus
  pub analytics : Option AnalyticsStatusBlock
  pub ai_advisory : Option AiAdvisoryStatus
  pub conditions : List Condition
  pub restart_count : ℤ
  pub observed_generation : ℤ
  pub last_reconcile_time : Option ℕ
  pub hotkey_hash : Formatted

-- Of the object's metadata, what the operator reads or resets; a manager of fields is its name.
pub record TaoNode (Q : Type 0) : Type 0 where
  pub name : String
  pub namespace_ : String
  pub generation : ℤ
  pub resource_version : String
  pub uid : String
  pub managed_fields : List String
  pub finalizers : List String
  pub is_deleted : Bool
  pub spec : TaoNodeSpec Q
  pub status : TaoNodeStatus
