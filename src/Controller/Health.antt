-- ===== src/Controller/Health.antt =====
-- What the sync state machine of internal/controller/sync_state_machine.go reads of a probe and of the
-- anomaly scores, and its tests.
use tao_node_guardian.Base.{
  ℕ, ◌*◌, ◌^◌, String, List, [], ◌∷◌, Bool, true, false, ◌&&◌, ◌||◌, leb, str_eq,
}
use tao_node_guardian.Base.Int.{ℤ, pos, ◌-ℤ◌, ◌*ℤ◌, leb_ℤ, wrap64}
use tao_node_guardian.Base.Errors.{Result, ok, err}
use tao_node_guardian.Api.Spec.{SyncPolicySpec}
use tao_node_guardian.Api.Status.{TaoNodePhase, pending, synced, degraded, recovering, failed}
use tao_node_guardian.Controller.RateLimiter.{second}

-- types.go, the measured latency in nanoseconds.
pub record ChainHealthResult : Type 0 where
  pub current_block : ℤ
  pub network_block : ℤ
  pub finalized_block : ℤ
  pub peer_count : ℤ
  pub sync_state : String
  pub runtime_version : String
  pub epoch : ℤ
  pub probe_latency : ℕ
  pub disk_usage_percent : ℤ
  pub disk_used_bytes : ℤ
  pub disk_total_bytes : ℤ
  pub gpu_util_percent : ℤ
  pub gpu_mem_used_bytes : ℤ
  pub gpu_temp_celsius : ℤ

-- A score is a float32 that is not negative, in units of 2^-149, of which every such float is a whole
-- number: the comparisons are exact.
pub record AnomalyScore : Type 0 where
  pub type_ : String
  pub score_units : ℕ
  pub detail : String
  pub detected_at : ℕ

-- The float32 nearest to 0.7, which is 11744051 / 2^24.
abbrev pub critical_score : ℕ
critical_score = 11_744_051 * 2 ^ 125

unfoldable pub has_critical_anomaly : List AnomalyScore → Bool
has_critical_anomaly [] = false
has_critical_anomaly (a ∷ as_) = leb critical_score a.score_units || has_critical_anomaly as_

unfoldable pub block_lag_of : ChainHealthResult → ℤ
block_lag_of health = wrap64 (health.network_block -ℤ health.current_block)

unfoldable pub is_synced : ChainHealthResult → SyncPolicySpec → Bool
is_synced health policy =
    leb_ℤ (block_lag_of health) policy.max_block_lag && str_eq health.sync_state "in-sync"

abbrev pub seconds : ℤ → ℤ
seconds n = n *ℤ pos second

abbrev pub is_pending : TaoNodePhase → Bool
is_pending pending = true
is_pending _ = false

abbrev pub is_synced_phase : TaoNodePhase → Bool
is_synced_phase synced = true
is_synced_phase _ = false

abbrev pub is_degraded : TaoNodePhase → Bool
is_degraded degraded = true
is_degraded _ = false

abbrev pub is_recovering : TaoNodePhase → Bool
is_recovering recovering = true
is_recovering _ = false

abbrev pub is_failed : TaoNodePhase → Bool
is_failed failed = true
is_failed _ = false

abbrev pub is_err {ℓ} : {A : Type ℓ} → Result A → Bool
is_err (ok _) = false
is_err (err _) = true

-- A reconcile result, `RequeueAfter` in nanoseconds with 0 for none, or an error.
abbrev pub Outcome : Type 0
Outcome = Result ℤ
