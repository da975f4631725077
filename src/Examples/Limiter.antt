-- ===== src/Examples/Limiter.antt =====
-- Runs of the rate limiter.
use tao_node_guardian.Base.{◌∷◌, [], ◌≡◌, ◌≤◌, ◌*◌, none, true, arith, List}
use tao_node_guardian.Controller.RateLimiter.{
  minute, second, new_recovery_rate_limiter, try_acquire, active_count, Call, acquires, releases,
  run,
}
use tao_node_guardian.Controller.RateLimiter.Invariant.{run-active_count-le}
use tao_node_guardian.Controller.RateLimiter.Cooldown.{grants, SpacedFrom, grants-SpacedFrom}
use tao_node_guardian.Controller.RateLimiter.Progress.{try_acquire_after_quiet}

-- Two nodes that lose sync at once, one of them again and again.
abbrev history : List Call
history =
    acquires 0 "tao/alpha"
    ∷ acquires (1 * second) "tao/beta"
    ∷ releases "tao/alpha"
    ∷ acquires (1 * minute) "tao/alpha"
    ∷ acquires (11 * minute) "tao/alpha"
    ∷ []

run-active_count-le_example :
    active_count (run history (new_recovery_rate_limiter 1 (10 * minute))) ≤ 1
run-active_count-le_example = run-active_count-le 1 (10 * minute) history

grants-SpacedFrom_example :
    SpacedFrom
      (10 * minute)
      none
      (grants "tao/alpha" history (new_recovery_rate_limiter 5 (10 * minute)))
grants-SpacedFrom_example = grants-SpacedFrom 5 (10 * minute) "tao/alpha" history

try_acquire_after_quiet_example :
    (try_acquire
      (21 * minute)
      "tao/alpha"
      (run history (new_recovery_rate_limiter 5 (10 * minute)))).0
    ≡ true
try_acquire_after_quiet_example =
    try_acquire_after_quiet 5 (10 * minute) (11 * minute) (21 * minute) "tao/alpha" history
      (omega arith) (omega arith, (omega arith, (tt, (omega arith, (omega arith, tt)))))
      (omega arith) (omega arith)
