-- ===== src/Examples/Analytics.antt =====
-- Reconciles with analytics on and a detector whose queries fail.
use tao_node_guardian.Base.{List, ℕ, ◌∷◌, [], ◌≡◌, refl, none, some, true, false}
use tao_node_guardian.Base.Int.{pos}
use tao_node_guardian.Api.Spec.{AnalyticsSpec}
use tao_node_guardian.Api.Status.{TaoNode, synced}
use tao_node_guardian.Analytics.CircuitBreaker.{closed, new_circuit_breaker}
use tao_node_guardian.Analytics.Detector.{Query, disk_usage_query, evaluate_node}
use tao_node_guardian.Analytics.BatchWriter.{new_table}
use tao_node_guardian.Controller.AnalyticsStep.{FloatOps, Plane, Visit}
use tao_node_guardian.Controller.AnalyticsStep.Blind.{answers, visit_all, visit_all_closed}
use tao_node_guardian.Examples.Detector.{score_floats, sample_rows}
use tao_node_guardian.Examples.Nodes.{conditions, node_in, healthy}

abbrev floats : FloatOps ℕ
floats = record { zero_float = 0; per_second = λ blocks duration. 0 }

abbrev analytics : AnalyticsSpec
analytics = record {
  enabled = true;
  click_house_ref = record {
    endpoint = "clickhouse:9000";
    database = "tao";
    credentials_secret = "clickhouse";
    tls = false;
    cluster = "";
  };
  ingestion = record {
    batch_size = pos 100;
    flush_interval_seconds = pos 5;
    chain_events = true;
    miner_telemetry = true;
    reconcile_audit = true;
  };
  anomaly_detection = none;
  retention = record {
    raw_data_days = pos 30;
    aggregated_data_days = pos 90;
    audit_data_days = pos 90;
  };
}

abbrev node : TaoNode ℕ
node =
    let sp = record ((node_in synced none).spec) { analytics = some analytics } in
    record (node_in synced none) { spec = sp }

abbrev detecting : TaoNode ℕ
detecting =
    let on = record analytics {
      anomaly_detection = some (record {
        enabled = true;
        evaluation_interval_seconds = pos 60;
        sync_drift_threshold = pos 10;
        peer_churn_velocity_threshold = pos 10;
        disk_exhaustion_horizon_hours = pos 24;
        reward_decay_percent = pos 10;
      });
    } in
    let sp = record (node.spec) { analytics = some on } in record node { spec = sp }

-- The queries answer as `sample_rows` says, or none of them before the deadline.
abbrev watched : List Query → Visit
watched arrivals = record {
  now = 60;
  answered = 70;
  health = healthy;
  answer = some (evaluate_node score_floats sample_rows 60 arrivals);
}

abbrev fresh_plane : Plane ℕ ℕ
fresh_plane = record {
  circuit = new_circuit_breaker 5 60 3;
  telemetry = new_table 0;
  reconcile_audit = new_table 0;
  graceful_degradations = 0;
  evaluations = 0;
}

abbrev watches : List (TaoNode ℕ × Visit)
watches = (detecting, watched (disk_usage_query ∷ [])) ∷ (detecting, watched []) ∷ []

fresh_closed : fresh_plane.circuit.state ≡ closed
unfolding new_circuit_breaker
fresh_closed = refl

visit_all_closed_example : (visit_all conditions floats watches fresh_plane).circuit.state ≡ closed
visit_all_closed_example =
    visit_all_closed conditions floats score_floats watches fresh_plane
      (answers sample_rows 60 (disk_usage_query ∷ []), (answers sample_rows 60 [], tt)) fresh_closed
