-- ===== src/Controller/RateLimiter.antt =====
-- internal/controller/rate_limiter.go. Each method runs under the mutex, so a call is one step. The
-- clock is read once for a call, and times and durations are nanoseconds. A comparison of
-- `time.Since(t)` with a duration is written as a sum, so that no subtraction is cut off at 0.
pub mod Invariant
pub mod Cooldown
pub mod Progress
use tao_node_guardian.Base.{
  [], ℕ, ◌+◌, ◌*◌, String, Bool, true, false, Option, none, some, List, ◌∷◌, length, ltb, leb,
  if◌then◌else◌,
}
use tao_node_guardian.Base.Dict.{Dict, lookup, insert, erase, retain}

abbrev pub second : ℕ
second = 1_000_000_000

abbrev pub minute : ℕ
minute = 60_000_000_000

-- Entries older than this are taken for completed recoveries.
abbrev pub stale_after : ℕ
stale_after = 5 * minute

-- A negative cap acts as 0 does. The two metrics are the counter and the gauge that the struct
-- points to.
pub record RecoveryRateLimiter : Type 0 where
  pub active_recoveries : Dict ℕ
  pub last_recovery_by_node : Dict ℕ
  pub max_concurrent : ℕ
  pub cooldown_per_node : ℕ
  pub recovery_throttled : ℕ
  pub active_recoveries_gauge : ℕ

unfoldable pub new_recovery_rate_limiter : ℕ → ℕ → RecoveryRateLimiter
new_recovery_rate_limiter max_concurrent cooldown = record {
  active_recoveries = [];
  last_recovery_by_node = [];
  max_concurrent = max_concurrent;
  cooldown_per_node = cooldown;
  recovery_throttled = 0;
  active_recoveries_gauge = 0;
}

-- The eviction loop of `TryAcquire`: an entry goes if `time.Since(started) > 5*time.Minute`.
unfoldable pub evict_stale : ℕ → RecoveryRateLimiter → RecoveryRateLimiter
evict_stale now rl = record rl {
  active_recoveries = retain (λ started. leb now (started + stale_after)) rl.active_recoveries;
}

-- `time.Since(last) < rl.cooldownPerNode`, for a node that has a last recovery.
abbrev pub is_cooling : ℕ → ℕ → Option ℕ → Bool
is_cooling now cooldown none = false
is_cooling now cooldown (some last) = ltb now (last + cooldown)

unfoldable pub throttle : RecoveryRateLimiter → Bool × RecoveryRateLimiter
throttle rl = (false, record rl { recovery_throttled = rl.recovery_throttled + 1 })

unfoldable pub grant : ℕ → String → RecoveryRateLimiter → Bool × RecoveryRateLimiter
grant now node_key rl =
    let active = insert node_key now rl.active_recoveries in
    (
      true,
      record rl {
        active_recoveries = active;
        last_recovery_by_node = insert node_key now rl.last_recovery_by_node;
        active_recoveries_gauge = length active;
      },
    )

unfoldable pub try_acquire : ℕ → String → RecoveryRateLimiter → Bool × RecoveryRateLimiter
unfolding evict_stale throttle grant
try_acquire now node_key rl =
    let fresh = evict_stale now rl in
    if leb fresh.max_concurrent (length fresh.active_recoveries)
    then throttle fresh
    else if is_cooling now fresh.cooldown_per_node (lookup node_key fresh.last_recovery_by_node)
    then throttle fresh
    else grant now node_key fresh

unfoldable pub release : String → RecoveryRateLimiter → RecoveryRateLimiter
release node_key rl =
    let active = erase node_key rl.active_recoveries in
    record rl { active_recoveries = active; active_recoveries_gauge = length active }

unfoldable pub active_count : RecoveryRateLimiter → ℕ
active_count rl = length rl.active_recoveries

-- A history: the calls in the order in which they took the mutex, each `TryAcquire` with its time.
pub data Call : Type 0 where
  acquires : ℕ → String → Call
  releases : String → Call

unfoldable pub step : Call → RecoveryRateLimiter → RecoveryRateLimiter
step (acquires now node_key) rl = (try_acquire now node_key rl).1
step (releases node_key) rl = release node_key rl

unfoldable pub run : List Call → RecoveryRateLimiter → RecoveryRateLimiter
run [] rl = rl
run (c ∷ cs) rl = run cs (step c rl)
