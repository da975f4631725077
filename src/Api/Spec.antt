-- ===== src/Api/Spec.antt =====
-- The desired state: the spec types of api/v1alpha1/taonode_types.go. `Q` is the type of resource
-- quantities; a pointer to a struct is an option, and an int32 or int64 an integer.
use tao_node_guardian.Base.{String, Bool, Option, List}
use tao_node_guardian.Base.Int.{ℤ}
use tao_node_guardian.Base.Dict.{Dict}

-- A role is a text; the three that the code names, and any other.
pub data TaoNodeRole : Type 0 where
  subtensor miner validator : TaoNodeRole
  other_role : String → TaoNodeRole

pub record AutoExpandSpec (Q : Type 0) : Type 0 where
  pub threshold_percent : ℤ
  pub max_size : Q
  pub increment_percent : ℤ

pub record ChainStorageSpec (Q : Type 0) : Type 0 where
  pub storage_class : String
  pub size : Q
  pub auto_expand : Option (AutoExpandSpec Q)

pub record SyncPolicySpec : Type 0 where
  pub max_block_lag : ℤ
  pub recovery_strategy : String
  pub max_restart_attempts : ℤ
  pub probe_interval_seconds : ℤ
  pub sync_timeout_minutes : ℤ

pub record SnapshotDestination : Type 0 where
  pub type_ : String
  pub bucket : String
  pub credentials_secret : String

pub record SnapshotPolicySpec : Type 0 where
  pub schedule : String
  pub destination : SnapshotDestination
  pub retention_count : ℤ
  pub on_sync_loss : Bool

pub record GpuSpec : Type 0 where
  pub count : ℤ
  pub type_ : String
  pub spot_tolerant : Bool
  pub fallback_to_cpu : Bool

pub record AlertRule : Type 0 where
  pub name : String
  pub expression : String
  pub duration : String
  pub severity : String

pub record MonitoringSpec : Type 0 where
  pub enabled : Bool
  pub port : ℤ
  pub alert_rules : List AlertRule

pub record ValidatorSpec : Type 0 where
  pub hot_key_secret : String
  pub cold_key_vault_ref : String
  pub external_secret_provider : String
  pub slashing_protection : Bool
  pub max_concurrent_validators : ℤ

pub record ClickHouseRef : Type 0 where
  pub endpoint : String
  pub database : String
  pub credentials_secret : String
  pub tls : Bool
  pub cluster : String

pub record IngestionSpec : Type 0 where
  pub batch_size : ℤ
  pub flush_interval_seconds : ℤ
  pub chain_events : Bool
  pub miner_telemetry : Bool
  pub reconcile_audit : Bool

pub record AnomalyDetectionSpec : Type 0 where
  pub enabled : Bool
  pub evaluation_interval_seconds : ℤ
  pub sync_drift_threshold : ℤ
  pub peer_churn_velocity_threshold : ℤ
  pub disk_exhaustion_horizon_hours : ℤ
  pub reward_decay_percent : ℤ

pub record RetentionSpec : Type 0 where
  pub raw_data_days : ℤ
  pub aggregated_data_days : ℤ
  pub audit_data_days : ℤ

pub record AnalyticsSpec : Type 0 where
  pub enabled : Bool
  pub click_house_ref : ClickHouseRef
  pub ingestion : IngestionSpec
  pub anomaly_detection : Option AnomalyDetectionSpec
  pub retention : RetentionSpec

pub record NotificationChannels : Type 0 where
  pub slack_webhook_secret : String
  pub pager_duty_key_secret : String
  pub discord_webhook_secret : String
  pub kubernetes_events : Bool

pub record AiAdvisorSpec : Type 0 where
  pub enabled : Bool
  pub endpoint : String
  pub model : String
  pub timeout_seconds : ℤ
  pub min_anomaly_score_for_advisory : String
  pub notification_channels : Option NotificationChannels
  pub context_window_tokens : ℤ

-- A Go map that may be nil.
pub record ResourceRequirements (Q : Type 0) : Type 0 where
  pub limits : Option (Dict Q)
  pub requests : Option (Dict Q)

-- A Toleration of the Kubernetes API.
pub record Toleration : Type 0 where
  pub key : String
  pub operator : String
  pub value : String
  pub effect : String

-- Disaster recovery is read by no modelled operation and is left out.
pub record TaoNodeSpec (Q : Type 0) : Type 0 where
  pub network : String
  pub subnet_id : ℤ
  pub role : TaoNodeRole
  pub image : String
  pub version : String
  pub chain_storage : ChainStorageSpec Q
  pub sync_policy : SyncPolicySpec
  pub snapshot_policy : Option SnapshotPolicySpec
  pub gpu : Option GpuSpec
  pub validator : Option ValidatorSpec
  pub resources : ResourceRequirements Q
  pub monitoring : Option MonitoringSpec
  pub analytics : Option AnalyticsSpec
  pub ai_advisor : Option AiAdvisorSpec
  pub tolerations : List Toleration
  pub node_selector : Option (Dict String)
