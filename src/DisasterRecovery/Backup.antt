-- ===== src/DisasterRecovery/Backup.antt =====
-- The periodic backup of all TaoNodes, internal/controller/dr_runner.go. The encoder, the compressor and
-- the object store are interfaces: `B` is the type of bytes.
use tao_node_guardian.Base.{ℕ, ◌+◌, String, List, [], ◌∷◌, Bool, true, false}
use tao_node_guardian.Base.Errors.{Result, ok, err, ◌>>=◌, context}
use tao_node_guardian.Base.Format.{str, stamp, Formatted, sprintf}
use tao_node_guardian.Api.Status.{TaoNode}

pub record DrMetrics : Type 0 where
  pub backup_success : ℕ
  pub backup_failures : ℕ
  pub last_backup_time : ℕ

pub record DrBackup (Q : Type 0) : Type 0 where
  pub timestamp : ℕ
  pub cluster_id : String
  pub schema_version : String
  pub nodes : List (TaoNode Q)

-- `json.Marshal`, and the gzip writer's `Write` and `Close`, the second of which gives the bytes.
pub record Encoder (Q B : Type 0) : Type 0 where
  pub marshal : DrBackup Q → Result B
  pub gzip_write : B → Result (Unit {0})
  pub gzip_close : B → Result B

pub record BackupClient (Q B W : Type 0) : Type 0 where
  pub list_nodes : W → Result (List (TaoNode Q))
  pub upload : Formatted → B → W → Result (Unit {0}) × W

-- The fields that the server manages are taken off.
unfoldable pub stripped_node : {Q : Type 0} → TaoNode Q → TaoNode Q
stripped_node tn = record tn {
  resource_version = "";
  uid = "";
  managed_fields = [];
  finalizers = [];
  is_deleted = false;
}

unfoldable pub stripped_nodes : {Q : Type 0} → List (TaoNode Q) → List (TaoNode Q)
unfolding stripped_node
stripped_nodes [] = []
stripped_nodes (tn ∷ rest) = stripped_node tn ∷ stripped_nodes rest

module _ {Q B : Type 0} (encoder : Encoder Q B) (cluster_id : String) where
  unfoldable pub backup_of : ℕ → List (TaoNode Q) → DrBackup Q
  unfolding stripped_nodes
  backup_of now nodes = record {
    timestamp = now;
    cluster_id = cluster_id;
    schema_version = "v1alpha1";
    nodes = stripped_nodes nodes;
  }

  -- The bytes that are uploaded.
  unfoldable pub backup_payload : ℕ → List (TaoNode Q) → Result B
  unfolding backup_of
  backup_payload now nodes = do
    data_ ← context "marshal DR backup: %w" (encoder.marshal (backup_of now nodes))
    context "gzip write: %w" (encoder.gzip_write data_) >>= λ _.
        context "gzip close: %w" (encoder.gzip_close data_)

  module _ {W : Type 0} (client : BackupClient Q B W) where
    abbrev upload_result : Result (Unit {0}) → Result (Unit {0})
    upload_result answer = context "upload DR backup to %s: %w" answer

    abbrev counted : ℕ → Result (Unit {0}) → DrMetrics → DrMetrics
    counted now (err _) metrics = metrics
    counted now (ok _) metrics = record metrics {
      backup_success = metrics.backup_success + 1;
      last_backup_time = now;
    }

    abbrev uploaded : ℕ → Result B → DrMetrics → W → Result (Unit {0}) × DrMetrics × W
    uploaded now (err e) metrics w = (err e, metrics, w)
    uploaded now (ok payload) metrics w =
        let key = sprintf "dr-backups/%s/%s.json.gz" (str cluster_id ∷ stamp now ∷ []) in
        let answer = client.upload key payload w in
        (upload_result answer.0, counted now answer.0 metrics, answer.1)

    unfoldable pub run_backup : ℕ → DrMetrics → W → Result (Unit {0}) × DrMetrics × W
    unfolding backup_payload
    run_backup now metrics w =
        uploaded now
          (context "list TaoNodes: %w" (client.list_nodes w) >>= λ nodes. backup_payload now nodes)
          metrics w

    abbrev failures_counted : Result (Unit {0}) → DrMetrics → DrMetrics
    failures_counted (ok _) metrics = metrics
    failures_counted (err _) metrics = record metrics {
      backup_failures = metrics.backup_failures + 1;
    }

    -- A backup whose error is counted and logged.
    unfoldable pub attempted_backup : ℕ → DrMetrics × W → DrMetrics × W
    unfolding run_backup
    attempted_backup now (metrics, w) =
        let (answer, metrics', w') = run_backup now metrics w in
        (failures_counted answer metrics', w')

    -- The backups at the ticks that the loop receives before the context ends; the time of a tick is
    -- an input.
    unfoldable pub ticks : List ℕ → DrMetrics × W → DrMetrics × W
    unfolding attempted_backup
    ticks [] s = s
    ticks (now ∷ rest) s = ticks rest (attempted_backup now s)

    -- The first backup is made at once.
    unfoldable pub start : ℕ → List ℕ → DrMetrics × W → DrMetrics × W
    unfolding ticks attempted_backup
    start now later s = ticks later (attempted_backup now s)

abbrev pub need_leader_election : Bool
need_leader_election = true
