-- ===== src/Analytics/Rows.antt =====
-- The rows of the ClickHouse tables, of internal/analytics/types.go, and the functions of
-- internal/analytics/flush.go that insert a batch of them. `F` is the type of floats, which are only
-- passed on. The driver of github.com/ClickHouse/clickhouse-go is a record of its calls.
use tao_node_guardian.Base.{ℕ, String, Bool, List, [], ◌∷◌}
use tao_node_guardian.Base.Int.{ℤ}
use tao_node_guardian.Base.Errors.{Result, ok, err}

pub data Cell (F : Type 0) : Type 0 where
  time : ℕ → Cell F
  txt : String → Cell F
  num : ℤ → Cell F
  flag : Bool → Cell F
  float : F → Cell F

pub record ChainTelemetryRow (F : Type 0) : Type 0 where
  pub timestamp : ℕ
  pub namespace_ : String
  pub node_name : String
  pub network : String
  pub subnet_id : ℤ
  pub role : String
  pub current_block : ℤ
  pub network_block : ℤ
  pub block_lag : ℤ
  pub finalized_block : ℤ
  pub peer_count : ℤ
  pub runtime_version : String
  pub sync_state : String
  pub blocks_per_second : F
  pub probe_latency_ms : ℤ
  pub probe_success : ℤ
  pub disk_usage_percent : ℤ
  pub disk_used_bytes : ℤ
  pub disk_total_bytes : ℤ
  pub gpu_utilization_percent : ℤ
  pub gpu_memory_used_bytes : ℤ
  pub gpu_temperature_celsius : ℤ

pub record ReconcileAuditRow : Type 0 where
  pub timestamp : ℕ
  pub namespace_ : String
  pub node_name : String
  pub trigger_type : String
  pub generation : ℤ
  pub resource_version : String
  pub phase_before : String
  pub sync_state_before : String
  pub block_lag_before : ℤ

pub record AnomalyRow (F : Type 0) : Type 0 where
  pub timestamp : ℕ
  pub namespace_ : String
  pub node_name : String
  pub network : String
  pub subnet_id : ℤ
  pub anomaly_type : String
  pub score : F
  pub detail : String

pub record FinOpsRow (F : Type 0) : Type 0 where
  pub timestamp : ℕ
  pub namespace_ : String
  pub node_name : String
  pub network : String
  pub role : String
  pub estimated_monthly_cost_usd : F
  pub cpu_cores : F
  pub memory_gib : F
  pub storage_gib : F
  pub gpu_count : ℤ
  pub is_spot : Bool
  pub tao_per_gpu_hour : F
  pub roi_percent : F

pub record DrRow (F : Type 0) : Type 0 where
  pub timestamp : ℕ
  pub namespace_ : String
  pub node_name : String
  pub event_type : String
  pub backup_size_bytes : ℤ
  pub duration_seconds : F
  pub status : String
  pub detail : String

-- The Boolean says whether the context is cancelled when the call is made; `B` is the type of batches,
-- and `W` the state of the database.
pub record Driver (F B W : Type 0) : Type 0 where
  pub prepare_batch : Bool → String → W → Result B × W
  pub append : List (Cell F) → B → Result B
  pub send : B → W → Result (Unit {0}) × W

module _ {F B W : Type 0} (conn : Driver F B W) where
  -- The loop over the rows, up to the first that fails.
  unfoldable pub append_rows : {T : Type 0} → (T → List (Cell F)) → List T → B → Result B
  append_rows columns [] batch = ok batch
  append_rows columns (r ∷ rows) batch = elim (conn.append (columns r) batch) [
    | ok batch' ↦ append_rows columns rows batch'
    | err e ↦ err e
  ]

  abbrev sent : Result B → W → Result (Unit {0}) × W
  sent (ok batch) w = conn.send batch w
  sent (err e) w = (err e, w)

  -- What the five functions share: they differ in the statement and the columns.
  unfoldable pub flush_batch :
      {T : Type 0} → String → (T → List (Cell F)) → Bool → List T → W → Result (Unit {0}) × W
  unfolding append_rows
  flush_batch statement columns cancelled rows w =
      let (prepared, w') = conn.prepare_batch cancelled statement w in
      elim prepared [ ok batch ↦ sent (append_rows columns rows batch) w' | err e ↦ (err e, w') ]

  abbrev pub telemetry_columns : ChainTelemetryRow F → List (Cell F)
  telemetry_columns r =
      time r.timestamp
      ∷ txt r.namespace_
      ∷ txt r.node_name
      ∷ txt r.network
      ∷ num r.subnet_id
      ∷ txt r.role
      ∷ num r.current_block
      ∷ num r.network_block
      ∷ num r.block_lag
      ∷ num r.finalized_block
      ∷ num r.peer_count
      ∷ txt r.runtime_version
      ∷ txt r.sync_state
      ∷ float r.blocks_per_second
      ∷ num r.probe_latency_ms
      ∷ num r.probe_success
      ∷ num r.disk_usage_percent
      ∷ num r.disk_used_bytes
      ∷ num r.disk_total_bytes
      ∷ num r.gpu_utilization_percent
      ∷ num r.gpu_memory_used_bytes
      ∷ num r.gpu_temperature_celsius
      ∷ []

  unfoldable pub flush_telemetry_batch :
      Bool → List (ChainTelemetryRow F) → W → Result (Unit {0}) × W
  unfolding flush_batch
  flush_telemetry_batch = flush_batch "INSERT INTO chain_telemetry" telemetry_columns

  abbrev audit_columns : ReconcileAuditRow → List (Cell F)
  audit_columns r =
      time r.timestamp
      ∷ txt r.namespace_
      ∷ txt r.node_name
      ∷ txt r.trigger_type
      ∷ num r.generation
      ∷ txt r.resource_version
      ∷ txt r.phase_before
      ∷ txt r.sync_state_before
      ∷ num r.block_lag_before
      ∷ []

  unfoldable pub flush_reconcile_audit_batch :
      Bool → List ReconcileAuditRow → W → Result (Unit {0}) × W
  unfolding flush_batch
  flush_reconcile_audit_batch = flush_batch "INSERT INTO reconcile_audit" audit_columns

  abbrev pub anomaly_columns : AnomalyRow F → List (Cell F)
  anomaly_columns r =
      time r.timestamp
      ∷ txt r.namespace_
      ∷ txt r.node_name
      ∷ txt r.network
      ∷ num r.subnet_id
      ∷ txt r.anomaly_type
      ∷ float r.score
      ∷ txt r.detail
      ∷ []

  unfoldable pub flush_anomaly_batch : Bool → List (AnomalyRow F) → W → Result (Unit {0}) × W
  unfolding flush_batch
  flush_anomaly_batch = flush_batch "INSERT INTO anomaly_scores" anomaly_columns

  abbrev finops_columns : FinOpsRow F → List (Cell F)
  finops_columns r =
      time r.timestamp
      ∷ txt r.namespace_
      ∷ txt r.node_name
      ∷ txt r.network
      ∷ txt r.role
      ∷ float r.estimated_monthly_cost_usd
      ∷ float r.cpu_cores
      ∷ float r.memory_gib
      ∷ float r.storage_gib
      ∷ num r.gpu_count
      ∷ flag r.is_spot
      ∷ float r.tao_per_gpu_hour
      ∷ float r.roi_percent
      ∷ []

  unfoldable pub flush_fin_ops_batch : Bool → List (FinOpsRow F) → W → Result (Unit {0}) × W
  unfolding flush_batch
  flush_fin_ops_batch = flush_batch "INSERT INTO finops_metrics" finops_columns

  abbrev dr_columns : DrRow F → List (Cell F)
  dr_columns r =
      time r.timestamp
      ∷ txt r.namespace_
      ∷ txt r.node_name
      ∷ txt r.event_type
      ∷ num r.backup_size_bytes
      ∷ float r.duration_seconds
      ∷ txt r.status
      ∷ txt r.detail
      ∷ []

  unfoldable pub flush_dr_batch : Bool → List (DrRow F) → W → Result (Unit {0}) × W
  unfolding flush_batch
  flush_dr_batch = flush_batch "INSERT INTO dr_events" dr_columns
