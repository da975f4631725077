-- ===== src/Examples/Breaker.antt =====
-- Runs of the circuit breaker.
use tao_node_guardian.Base.{ℕ, List, ◌∷◌, [], ◌++◌, ◌≢◌, Bool, true, false, arith}
use tao_node_guardian.Analytics.CircuitBreaker.{
  closed, allow, record_failure, new_circuit_breaker, allows, succeeds, fails, run,
}
use tao_node_guardian.Analytics.CircuitBreaker.Invariant.{Inv, run-Inv}
use tao_node_guardian.Analytics.CircuitBreaker.Guarded.{
  Request, guarded_run, guarded_run_never_closes,
}

run-Inv_example :
    Inv (
      run
        (fails 1 ∷ fails 2 ∷ allows 100 ∷ succeeds ∷ allows 101 ∷ [])
        (new_circuit_breaker 2 60 3))
run-Inv_example = run-Inv 2 60 3 (fails 1 ∷ fails 2 ∷ allows 100 ∷ succeeds ∷ allows 101 ∷ [])

abbrev request : Bool → ℕ → Request
request succeeded t = record { asked = t; answered = t; succeeded = succeeded }

abbrev failures : List Request
failures = request false 1 ∷ request false 2 ∷ []

opened : (guarded_run failures (new_circuit_breaker 2 60 3)).state ≢ closed
unfolding guarded_run allow record_failure new_circuit_breaker
opened e = absurd (cc)

guarded_run_never_closes_example :
    (guarded_run
      (failures ++ (request true 100 ∷ request true 200 ∷ request true 300 ∷ []))
      (new_circuit_breaker 2 60 3)).state
    ≢ closed
guarded_run_never_closes_example =
    guarded_run_never_closes 2 60 3 failures
      (request true 100 ∷ request true 200 ∷ request true 300 ∷ []) (omega arith) opened
