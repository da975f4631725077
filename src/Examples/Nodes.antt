-- ===== src/Examples/Nodes.antt =====
-- A node, a cluster that is the list of its snapshots, and the interfaces of the packages outside the
-- repository, by concrete functions.
use tao_node_guardian.Base.{
  if◌then◌else◌, ℕ, ◌+◌, ◌*◌, ◌/◌, String, List, [], ◌∷◌, Option, none, some, true, false, ltb,
  str_eq, arith,
}
use tao_node_guardian.Base.Int.{pos, pos_part}
use tao_node_guardian.Base.Errors.{ok}
use tao_node_guardian.Base.Format.{text}
use tao_node_guardian.Api.Quantities.{QuantityOps, QuantityOrder}
use tao_node_guardian.Api.Spec.{
  validator, TaoNodeSpec, ValidatorSpec, SyncPolicySpec, SnapshotPolicySpec, AutoExpandSpec,
}
use tao_node_guardian.Api.Status.{TaoNode, TaoNodeStatus, TaoNodePhase, Condition}
use tao_node_guardian.Controller.Conditions.{ConditionOps}
use tao_node_guardian.Controller.Conditions.Transitions.{merged}
use tao_node_guardian.Controller.RateLimiter.{
  RecoveryRateLimiter, minute, new_recovery_rate_limiter,
}
use tao_node_guardian.Controller.Health.{ChainHealthResult}
use tao_node_guardian.Controller.State.{KubeClient, Run}

-- Quantities are whole numbers.
abbrev pub quantities : QuantityOps ℕ
quantities = record {
  value = pos;
  milli_value = λ q. pos (q * 1000);
  from_milli = λ z. pos_part z / 1000;
  less = ltb;
  to_text = λ q. "";
}

pub quantities_order : QuantityOrder quantities
quantities_order = record {
  less_irrefl = λ a. ground arith;
  not_less_trans = λ a b c h k. ground arith;
}

abbrev pub find : List Condition → String → Option Condition
find [] t = none
find (c ∷ cs) t = if str_eq c.type_ t then some c else find cs t

abbrev pub set : List Condition → Condition → List Condition
set [] c = c ∷ []
set (d ∷ ds) c = if str_eq d.type_ c.type_ then merged (some d) c ∷ ds else d ∷ set ds c

abbrev pub conditions : ConditionOps
conditions = record { find_status_condition = find; set_status_condition = set }

abbrev pub sync_policy : SyncPolicySpec
sync_policy = record {
  max_block_lag = pos 50;
  recovery_strategy = "restart";
  max_restart_attempts = pos 3;
  probe_interval_seconds = pos 30;
  sync_timeout_minutes = pos 10;
}

abbrev pub snapshot_policy : SnapshotPolicySpec
snapshot_policy = record {
  schedule = "0 0 * * *";
  destination = record { type_ = "s3"; bucket = "tao"; credentials_secret = "aws" };
  retention_count = pos 2;
  on_sync_loss = true;
}

abbrev pub auto_expand : AutoExpandSpec ℕ
auto_expand = record { threshold_percent = pos 80; max_size = 400; increment_percent = pos 20 }

abbrev keys : ValidatorSpec
keys = record {
  hot_key_secret = "hotkey";
  cold_key_vault_ref = "";
  external_secret_provider = "";
  slashing_protection = true;
  max_concurrent_validators = pos 1;
}

abbrev spec : TaoNodeSpec ℕ
spec = record {
  network = "mainnet";
  subnet_id = pos 1;
  role = validator;
  image = "subtensor";
  version = "1";
  chain_storage = record { storage_class = "ssd"; size = 107374182400; auto_expand = none };
  sync_policy = sync_policy;
  snapshot_policy = some snapshot_policy;
  gpu = none;
  validator = some keys;
  resources = record { limits = none; requests = none };
  monitoring = none;
  analytics = none;
  ai_advisor = none;
  tolerations = [];
  node_selector = none;
}

abbrev status_in : TaoNodePhase → Option ℕ → TaoNodeStatus
status_in p last = record {
  phase = p;
  sync_state = record {
    state = "";
    current_block = pos 0;
    network_block = pos 0;
    block_lag = pos 0;
    sync_percentage = text "";
    last_synced_at = none;
  };
  chain = record {
    peer_count = pos 0;
    finalized_block = pos 0;
    runtime_version = "";
    epoch = pos 0;
  };
  resources = record {
    disk_usage_percent = pos 85;
    gpu_utilization_percent = none;
    estimated_monthly_usd = text "";
  };
  snapshot = none;
  analytics = none;
  ai_advisory = none;
  conditions = [];
  restart_count = pos 0;
  observed_generation = pos 0;
  last_reconcile_time = last;
  hotkey_hash = text "";
}

abbrev pub node_in : TaoNodePhase → Option ℕ → TaoNode ℕ
node_in p last = record {
  name = "alpha";
  namespace_ = "tao";
  generation = pos 1;
  resource_version = "1";
  uid = "7f3c";
  managed_fields = "kubectl" ∷ [];
  finalizers = [];
  is_deleted = false;
  spec = spec;
  status = status_in p last;
}

-- Every pod is found, and goes when it is deleted: the cluster counts the deletions.
abbrev pub pods : KubeClient ℕ
pods = record {
  get_pod = λ ns name w. ok (record { name = name; namespace_ = ns; pod_ip = "10.0.0.1" });
  delete_pod = λ pod w. (ok tt, w + 1);
  create_snapshot = λ r w. (ok tt, w);
  list_snapshots = λ ns labels w. ok [];
  delete_snapshot = λ x w. (ok tt, w);
}

abbrev pub limiter : RecoveryRateLimiter
limiter = new_recovery_rate_limiter 5 (10 * minute)

abbrev pub run_in : TaoNodePhase → Option ℕ → Run ℕ ℕ
run_in p last = record { node = node_in p last; limiter = limiter; world = 0; outputs = [] }

abbrev pub health_at : ℕ → String → ChainHealthResult
health_at block state = record {
  current_block = pos block;
  network_block = pos 1000;
  finalized_block = pos 900;
  peer_count = pos 12;
  sync_state = state;
  runtime_version = "1";
  epoch = pos 3;
  probe_latency = 1000000;
  disk_usage_percent = pos 85;
  disk_used_bytes = pos 0;
  disk_total_bytes = pos 0;
  gpu_util_percent = pos 0;
  gpu_mem_used_bytes = pos 0;
  gpu_temp_celsius = pos 0;
}

abbrev pub lagging : ChainHealthResult
lagging = health_at 100 "syncing"

abbrev pub healthy : ChainHealthResult
healthy = health_at 990 "in-sync"
