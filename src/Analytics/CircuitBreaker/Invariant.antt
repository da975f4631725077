-- ===== src/Analytics/CircuitBreaker/Invariant.antt =====
-- What holds of a circuit breaker between two calls, and how it opens, probes and closes.
use tao_node_guardian.Base.{ℕ, ◌<◌, ◌≡◌, ◌≢◌, List, [], ◌∷◌, arith, true, false}
use tao_node_guardian.Analytics.CircuitBreaker.{
  closed, half_open, CircuitBreaker, new_circuit_breaker, allow, record_success, record_failure,
  Call, allows, succeeds, fails, step, run,
}

-- The permit is taken exactly in the half-open state; a closed breaker is short of its failures, and
-- a half-open one of its probes.
pub record Inv (cb : CircuitBreaker) : Type 0 where
  pub permit_taken : cb.state ≡ half_open → cb.half_open_permit ≡ true
  pub permit_free : cb.state ≢ half_open → cb.half_open_permit ≡ false
  pub below_threshold : cb.state ≡ closed → 0 < cb.max_failures → cb.failures < cb.max_failures
  pub below_probes :
      cb.state ≡ half_open → 0 < cb.half_open_probes → cb.successes < cb.half_open_probes

allow-Inv : (now : ℕ) (cb : CircuitBreaker) → Inv cb → Inv (allow now cb).1
unfolding allow
allow-Inv now cb v = ground arith

record_success-Inv : (cb : CircuitBreaker) → Inv cb → Inv (record_success cb)
unfolding record_success
record_success-Inv cb v = ground arith

record_failure-Inv : (now : ℕ) (cb : CircuitBreaker) → Inv cb → Inv (record_failure now cb)
unfolding record_failure
record_failure-Inv now cb v = ground arith

step-Inv : (c : Call) (cb : CircuitBreaker) → Inv cb → Inv (step c cb)
unfolding step
step-Inv (allows now) cb v = allow-Inv now cb v
step-Inv succeeds cb v = record_success-Inv cb v
step-Inv (fails now) cb v = record_failure-Inv now cb v

run_from-Inv : (cs : List Call) (cb : CircuitBreaker) → Inv cb → Inv (run cs cb)
unfolding run
run_from-Inv [] cb v = v
run_from-Inv (c ∷ cs) cb v = run_from-Inv cs (step c cb) (step-Inv c cb v)

-- After any calls on a new breaker that do not overlap: the probe permit is taken exactly while the
-- breaker is half-open, a closed breaker has counted fewer failures than open it, and a half-open
-- one fewer successes than close it.
pub run-Inv :
    (most timeout probes : ℕ) (cs : List Call)
    → Inv (run cs (new_circuit_breaker most timeout probes))
run-Inv most timeout probes cs = run_from-Inv cs (new_circuit_breaker most timeout probes) start
  where
    start : Inv (new_circuit_breaker most timeout probes)
    start = unfold new_circuit_breaker in ground arith
