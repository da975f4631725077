-- ===== src/Controller/AnalyticsStep.antt =====
-- `reconcileWithAnalytics` of internal/controller/taonode_controller.go and the two rows that it builds:
-- where a reconcile meets the circuit breaker and the batch writer.
pub mod Blind
use tao_node_guardian.Base.{
  ℕ, ◌+◌, ◌/◌, String, List, [], ◌∷◌, Option, none, some, Bool, true, false, ltb, if◌then◌else◌,
}
use tao_node_guardian.Base.Int.{ℤ, pos, residue}
use tao_node_guardian.Base.Errors.{Result, ok, err}
use tao_node_guardian.Base.Format.{error_text, sprintf, text}
use tao_node_guardian.Api.Spec.{AnalyticsSpec, AnomalyDetectionSpec}
use tao_node_guardian.Api.Status.{
  TaoNode, TaoNodePhase, unset, pending, syncing, synced, degraded, recovering, failed,
  AnalyticsStatusBlock, is_true, is_false,
}
use tao_node_guardian.Api.Webhook.{role_text}
use tao_node_guardian.Analytics.CircuitBreaker.{
  CircuitBreaker, allow, record_success, record_failure,
}
use tao_node_guardian.Analytics.Rows.{ChainTelemetryRow, ReconcileAuditRow}
use tao_node_guardian.Analytics.BatchWriter.{Table, push}
use tao_node_guardian.Controller.Conditions.{ConditionOps, set_condition}
use tao_node_guardian.Controller.Health.{ChainHealthResult, AnomalyScore, block_lag_of}

-- The conversions `uint8`, `uint16`, `uint32` and `uint64` of Go.
abbrev uint8 : ℤ → ℤ
uint8 z = pos (residue 0x100 z)

abbrev uint16 : ℤ → ℤ
uint16 z = pos (residue 0x1_0000 z)

abbrev uint32 : ℤ → ℤ
uint32 z = pos (residue 0x1_0000_0000 z)

abbrev uint64 : ℤ → ℤ
uint64 z = pos (residue 0x1_0000_0000_0000_0000 z)

unfoldable pub phase_text : TaoNodePhase → String
phase_text unset = ""
phase_text pending = "Pending"
phase_text syncing = "Syncing"
phase_text synced = "Synced"
phase_text degraded = "Degraded"
phase_text recovering = "Recovering"
phase_text failed = "Failed"

-- The floats of a telemetry row: 0, and a count of blocks divided by a duration in nanoseconds.
pub record FloatOps (F : Type 0) : Type 0 where
  pub zero_float : F
  pub per_second : ℤ → ℕ → F

unfoldable pub build_telemetry_row :
    {F Q : Type 0} → FloatOps F → ℕ → TaoNode Q → ChainHealthResult → ChainTelemetryRow F
unfolding block_lag_of
build_telemetry_row floats now tn health = record {
  timestamp = now;
  namespace_ = tn.namespace_;
  node_name = tn.name;
  network = tn.spec.network;
  subnet_id = uint16 tn.spec.subnet_id;
  role = role_text tn.spec.role;
  current_block = uint64 health.current_block;
  network_block = uint64 health.network_block;
  block_lag = block_lag_of health;
  finalized_block = uint64 health.finalized_block;
  peer_count = uint16 health.peer_count;
  runtime_version = health.runtime_version;
  sync_state = health.sync_state;
  blocks_per_second =
      if ltb 0 health.probe_latency
      then floats.per_second health.current_block health.probe_latency
      else floats.zero_float;
  probe_latency_ms = uint32 (pos (health.probe_latency / 1_000_000));
  probe_success = pos 1;
  disk_usage_percent = uint8 health.disk_usage_percent;
  disk_used_bytes = health.disk_used_bytes;
  disk_total_bytes = health.disk_total_bytes;
  gpu_utilization_percent = health.gpu_util_percent;
  gpu_memory_used_bytes = health.gpu_mem_used_bytes;
  gpu_temperature_celsius = health.gpu_temp_celsius;
}

unfoldable pub build_reconcile_audit_row : {Q : Type 0} → ℕ → TaoNode Q → ReconcileAuditRow
unfolding phase_text
build_reconcile_audit_row now tn = record {
  timestamp = now;
  namespace_ = tn.namespace_;
  node_name = tn.name;
  trigger_type = "periodic";
  generation = uint64 tn.generation;
  resource_version = tn.resource_version;
  phase_before = phase_text tn.status.phase;
  sync_state_before = tn.status.sync_state.state;
  block_lag_before = tn.status.sync_state.block_lag;
}

-- What all reconciles share: the circuit breaker, the writer's two tables, and two metrics, the second
-- the count of observed durations. `D` is the state of the database.
pub record Plane (F D : Type 0) : Type 0 where
  pub circuit : CircuitBreaker
  pub telemetry : Table (ChainTelemetryRow F) D
  pub reconcile_audit : Table ReconcileAuditRow D
  pub graceful_degradations : ℕ
  pub evaluations : ℕ

-- One call: its times, at the start and when the query is answered, the probe, and the answer that the
-- anomaly detector would give, with none where there is no detector.
pub record Visit : Type 0 where
  pub now : ℕ
  pub answered : ℕ
  pub health : ChainHealthResult
  pub answer : Option (Result (List AnomalyScore))

abbrev block_or_new : Option AnalyticsStatusBlock → AnalyticsStatusBlock
block_or_new none = record {
  connected = false;
  last_ingestion_time = none;
  rows_ingested24h = pos 0;
  anomaly_scores = [];
  ingestion_lag_ms = pos 0;
}
block_or_new (some b) = b

abbrev detects : Option AnomalyDetectionSpec → Bool
detects none = false
detects (some d) = d.enabled

abbrev disconnected : Option AnalyticsStatusBlock → Option AnalyticsStatusBlock
disconnected none = none
disconnected (some b) = some (record b { connected = false })

module _ {Q : Type 0} where
  unfoldable pub connect : ℕ → TaoNode Q → TaoNode Q
  connect now tn =
      let block = record (block_or_new tn.status.analytics) {
        connected = true;
        last_ingestion_time = some now;
      } in
      let st = record (tn.status) { analytics = some block } in record tn { status = st }

  unfoldable pub disconnect : TaoNode Q → TaoNode Q
  disconnect tn =
      let st = record (tn.status) { analytics = disconnected tn.status.analytics } in
      record tn { status = st }

module _ {F Q D : Type 0} (conds : ConditionOps) (floats : FloatOps F) where
  unfoldable pub refuse : Visit → TaoNode Q → Plane F D → List AnomalyScore × TaoNode Q × Plane F D
  unfolding set_condition
  refuse v tn p = (
    [],
    set_condition conds v.now "AnalyticsAvailable" is_false "CircuitBreakerOpen"
        (text "ClickHouse circuit open, operating in reactive-only mode") tn,
    record p { graceful_degradations = p.graceful_degradations + 1 },
  )

  unfoldable pub ingest : AnalyticsSpec → Visit → TaoNode Q → Plane F D → Plane F D
  unfolding build_telemetry_row build_reconcile_audit_row push
  ingest a v tn p =
      let audit = push (build_reconcile_audit_row v.now tn) p.reconcile_audit in
      record p {
        telemetry = push (build_telemetry_row floats v.now tn v.health) p.telemetry;
        reconcile_audit = if a.ingestion.reconcile_audit then audit else p.reconcile_audit;
      }

  unfoldable pub evaluated :
      Result (List AnomalyScore)
      → Visit
      → TaoNode Q
      → Plane F D
      → List AnomalyScore × TaoNode Q × Plane F D
  unfolding disconnect set_condition
  evaluated (err e) v tn p = (
    [],
    disconnect (
        set_condition conds v.answered "AnalyticsAvailable" is_false "QueryFailed"
          (sprintf "%s" (error_text e ∷ [])) tn),
    record p { circuit = record_failure v.answered p.circuit; evaluations = p.evaluations + 1 },
  )
  evaluated (ok scores) v tn p = (
    scores,
    set_condition conds v.answered "AnalyticsAvailable" is_true "Connected"
        (text "Analytics plane healthy") tn,
    record p { circuit = record_success p.circuit; evaluations = p.evaluations + 1 },
  )

  unfoldable pub detect :
      Option (Result (List AnomalyScore))
      → AnalyticsSpec
      → Visit
      → TaoNode Q
      → Plane F D
      → List AnomalyScore × TaoNode Q × Plane F D
  unfolding evaluated
  detect none a v tn p = ([], tn, p)
  detect (some answer) a v tn p =
      if detects a.anomaly_detection then evaluated answer v tn p else ([], tn, p)

  unfoldable pub allowed_if :
      Bool
      → AnalyticsSpec
      → Visit
      → TaoNode Q
      → Plane F D
      → List AnomalyScore × TaoNode Q × Plane F D
  unfolding refuse ingest connect detect
  allowed_if false a v tn p = refuse v tn p
  allowed_if true a v tn p = detect v.answer a v (connect v.now tn) (ingest a v tn p)

  unfoldable pub with_analytics :
      Option AnalyticsSpec
      → Visit
      → TaoNode Q
      → Plane F D
      → List AnomalyScore × TaoNode Q × Plane F D
  unfolding allowed_if
  with_analytics none v tn p = ([], tn, p)
  with_analytics (some a) v tn p =
      let (allowed, circuit) = allow v.now p.circuit in
      if a.enabled then allowed_if allowed a v tn (record p { circuit = circuit }) else ([], tn, p)

  -- Without a writer or a circuit breaker there is no plane, and nothing happens.
  unfoldable pub reconcile_with_analytics :
      Visit → TaoNode Q → Option (Plane F D) → List AnomalyScore × TaoNode Q × Option (Plane F D)
  unfolding with_analytics
  reconcile_with_analytics v tn none = ([], tn, none)
  reconcile_with_analytics v tn (some p) =
      let (scores, tn', p') = with_analytics tn.spec.analytics v tn p in (scores, tn', some p')
