-- ===== src/Analytics/CircuitBreaker.antt =====
-- internal/analytics/circuit_breaker.go. Here each method is one step, as when the calls do not
-- overlap. Times are nanoseconds, read once for a call.
pub mod Invariant
pub mod Guarded
use tao_node_guardian.Base.{
  [], ℕ, ◌+◌, String, List, ◌∷◌, Bool, true, false, ◌||◌, ltb, leb, if◌then◌else◌,
}

-- The three values that are ever stored in the atomic `state`.
pub data CbState : Type 0 where
  closed open_ half_open : CbState

-- `last_failure_at` is read in the open state only, which a failure has stamped.
pub record CircuitBreaker : Type 0 where
  pub state : CbState
  pub half_open_permit : Bool
  pub failures : ℕ
  pub successes : ℕ
  pub last_failure_at : ℕ
  pub max_failures : ℕ
  pub reset_timeout : ℕ
  pub half_open_probes : ℕ

unfoldable pub new_circuit_breaker : ℕ → ℕ → ℕ → CircuitBreaker
new_circuit_breaker max_failures reset_timeout half_open_probes = record {
  state = closed;
  half_open_permit = false;
  failures = 0;
  successes = 0;
  last_failure_at = 0;
  max_failures = max_failures;
  reset_timeout = reset_timeout;
  half_open_probes = half_open_probes;
}

-- The `cbStateOpen` case of `Allow` once the blackout is over. Both compare-and-swaps test what they
-- read, the second also the state, which nothing else changes meanwhile.
unfoldable pub take_probe : CircuitBreaker → Bool × CircuitBreaker
take_probe cb =
    if cb.half_open_permit
    then (false, cb)
    else (true, record cb { half_open_permit = true; state = half_open; successes = 0 })

unfoldable pub allow_in : CbState → ℕ → CircuitBreaker → Bool × CircuitBreaker
unfolding take_probe
allow_in closed now cb = (true, cb)
allow_in open_ now cb =
    if ltb now (cb.last_failure_at + cb.reset_timeout) then (false, cb) else take_probe cb
allow_in half_open now cb = (false, cb)

unfoldable pub allow : ℕ → CircuitBreaker → Bool × CircuitBreaker
unfolding allow_in
allow now cb = allow_in cb.state now cb

unfoldable pub record_success_in : CbState → CircuitBreaker → CircuitBreaker
record_success_in half_open cb =
    let successes = cb.successes + 1 in
    if leb cb.half_open_probes successes
    then record cb { failures = 0; successes = 0; state = closed; half_open_permit = false }
    else record cb { successes = successes }
record_success_in closed cb = record cb { failures = 0 }
record_success_in open_ cb = cb

unfoldable pub record_success : CircuitBreaker → CircuitBreaker
unfolding record_success_in
record_success cb = record_success_in cb.state cb

abbrev pub is_half_open : CbState → Bool
is_half_open half_open = true
is_half_open _ = false

unfoldable pub record_failure : ℕ → CircuitBreaker → CircuitBreaker
record_failure now cb =
    let failures = cb.failures + 1 in
    let counted = record cb { failures = failures; last_failure_at = now } in
    if leb cb.max_failures failures || is_half_open cb.state
    then record counted { state = open_; half_open_permit = false }
    else counted

abbrev pub is_open_state : CbState → Bool
is_open_state open_ = true
is_open_state _ = false

unfoldable pub is_open : CircuitBreaker → Bool
is_open cb = is_open_state cb.state

unfoldable pub state_name : CbState → String
state_name closed = "closed"
state_name open_ = "open"
state_name half_open = "half-open"

-- What a client may call, each with its time.
pub data Call : Type 0 where
  allows : ℕ → Call
  succeeds : Call
  fails : ℕ → Call

unfoldable pub step : Call → CircuitBreaker → CircuitBreaker
step (allows now) cb = (allow now cb).1
step succeeds cb = record_success cb
step (fails now) cb = record_failure now cb

unfoldable pub run : List Call → CircuitBreaker → CircuitBreaker
run [] cb = cb
run (c ∷ cs) cb = run cs (step c cb)
