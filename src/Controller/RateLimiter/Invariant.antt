-- ===== src/Controller/RateLimiter/Invariant.antt =====
-- The fleet-wide cap of the recovery rate limiter, over every history of calls.
use tao_node_guardian.Base.{subst, ◌∙◌, ◌+◌, leb, ℕ, ◌≤◌, ◌≡◌, refl, String, List, [], ◌∷◌, arith}
use tao_node_guardian.Base.Dict.{length-insert-le, length-erase-le, length-retain-le}
use tao_node_guardian.Controller.RateLimiter.{
  stale_after, RecoveryRateLimiter, new_recovery_rate_limiter, evict_stale, try_acquire, release,
  active_count, Call, acquires, releases, step, run,
}

abbrev pub IsWithinCap : RecoveryRateLimiter → Type 0
IsWithinCap rl = active_count rl ≤ rl.max_concurrent

try_acquire-IsWithinCap :
    (now : ℕ) (k : String) (rl : RecoveryRateLimiter)
    → IsWithinCap rl
    → IsWithinCap (try_acquire now k rl).1
unfolding try_acquire active_count
try_acquire-IsWithinCap now k rl h = ground (
  arith,
  length-retain-le (λ started. leb now (started + stale_after)) rl.active_recoveries,
  length-insert-le k now (evict_stale now rl).active_recoveries,
)

step-IsWithinCap : (c : Call) (rl : RecoveryRateLimiter) → IsWithinCap rl → IsWithinCap (step c rl)
unfolding step
step-IsWithinCap (acquires now k) rl h = try_acquire-IsWithinCap now k rl h
step-IsWithinCap (releases k) rl h =
    unfold release active_count in omega (arith, length-erase-le k rl.active_recoveries)

run_from-IsWithinCap :
    (cs : List Call) (rl : RecoveryRateLimiter) → IsWithinCap rl → IsWithinCap (run cs rl)
unfolding run
run_from-IsWithinCap [] rl h = h
run_from-IsWithinCap (c ∷ cs) rl h = run_from-IsWithinCap cs (step c rl) (step-IsWithinCap c rl h)

step_config :
    (c : Call) (rl : RecoveryRateLimiter)
    → ((step c rl).max_concurrent ≡ rl.max_concurrent)
      × ((step c rl).cooldown_per_node ≡ rl.cooldown_per_node)
unfolding step try_acquire release
step_config (acquires now k) rl = ground arith
step_config (releases k) rl = (refl, refl)

-- No call changes the cap or the cooldown.
pub run_config :
    (cs : List Call) (rl : RecoveryRateLimiter)
    → ((run cs rl).max_concurrent ≡ rl.max_concurrent)
      × ((run cs rl).cooldown_per_node ≡ rl.cooldown_per_node)
unfolding run
run_config [] rl = (refl, refl)
run_config (c ∷ cs) rl =
    let (cap_kept, cooldown_kept) = step_config c rl in
    let (cap_after, cooldown_after) = run_config cs (step c rl) in
    (cap_after ∙ cap_kept, cooldown_after ∙ cooldown_kept)

-- From a new limiter, after any calls of `TryAcquire` and `Release` at any times, the number of
-- active recoveries is at most the cap that the limiter was made with.
pub run-active_count-le :
    (most cooldown : ℕ) (cs : List Call)
    → active_count (run cs (new_recovery_rate_limiter most cooldown)) ≤ most
unfolding new_recovery_rate_limiter
run-active_count-le most cooldown cs =
    let rl = new_recovery_rate_limiter most cooldown in
    subst (λ m. active_count (run cs rl) ≤ m) (run_config cs rl).0
      (run_from-IsWithinCap cs rl start)
  where
    start : IsWithinCap (new_recovery_rate_limiter most cooldown)
    start = unfold active_count new_recovery_rate_limiter in omega arith
