-- ===== src/Analytics/CircuitBreaker/Guarded.antt =====
-- A client of internal/analytics/circuit_breaker.go that keeps to its protocol: it asks `Allow` before each
-- request and reports the outcome of those it makes, one request at a time. It is any client: the
-- operator's own reconcile never has a failure to report.
use tao_node_guardian.Base.{
  ℕ, ◌≤◌, ◌≡◌, ◌≢◌, refl, sym, ◌∙◌, subst, List, [], ◌∷◌, ◌++◌, arith, Bool, if◌then◌else◌,
}
use tao_node_guardian.Analytics.CircuitBreaker.{
  closed, CircuitBreaker, new_circuit_breaker, allow, record_success, record_failure,
}

pub record Request : Type 0 where
  pub asked : ℕ
  pub answered : ℕ
  pub succeeded : Bool

pub guarded_call : Request → CircuitBreaker → CircuitBreaker
guarded_call r cb =
    let (allowed, cb') = allow r.asked cb in
    if allowed
    then (if r.succeeded then record_success cb' else record_failure r.answered cb')
    else cb'

unfoldable pub guarded_run : List Request → CircuitBreaker → CircuitBreaker
unfolding guarded_call
guarded_run [] cb = cb
guarded_run (r ∷ rs) cb = guarded_run rs (guarded_call r cb)

guarded_call-probes :
    (r : Request) (cb : CircuitBreaker) → (guarded_call r cb).half_open_probes ≡ cb.half_open_probes
unfolding guarded_call allow record_success record_failure
guarded_call-probes r cb = ground arith

guarded_call-open :
    (r : Request) (cb : CircuitBreaker)
    → 2 ≤ cb.half_open_probes
    → cb.state ≢ closed
    → (guarded_call r cb).state ≢ closed
unfolding guarded_call allow record_success record_failure
guarded_call-open r cb p n = ground arith

guarded_run-probes :
    (rs : List Request) (cb : CircuitBreaker)
    → (guarded_run rs cb).half_open_probes ≡ cb.half_open_probes
unfolding guarded_run
guarded_run-probes [] cb = refl
guarded_run-probes (r ∷ rs) cb =
    guarded_run-probes rs (guarded_call r cb) ∙ guarded_call-probes r cb

guarded_run-open :
    (rs : List Request) (cb : CircuitBreaker)
    → 2 ≤ cb.half_open_probes
    → cb.state ≢ closed
    → (guarded_run rs cb).state ≢ closed
unfolding guarded_run
guarded_run-open [] cb p n = n
guarded_run-open (r ∷ rs) cb p n =
    guarded_run-open rs (guarded_call r cb) (subst (λ q. 2 ≤ q) (sym (guarded_call-probes r cb)) p)
      (guarded_call-open r cb p n)

guarded_run-append :
    (before after : List Request) (cb : CircuitBreaker)
    → guarded_run (before ++ after) cb ≡ guarded_run after (guarded_run before cb)
unfolding guarded_run
guarded_run-append [] after cb = refl
guarded_run-append (r ∷ rs) after cb = guarded_run-append rs after (guarded_call r cb)

-- A breaker that is built to want two or more successes, and that has been opened by the requests of a
-- client that asks `Allow` before each and reports the outcomes, never closes again by further requests of
-- this client, whatever their times and their outcomes.
pub guarded_run_never_closes :
    (max_failures reset_timeout probes : ℕ) (before after : List Request)
    → 2 ≤ probes
    → let cb = new_circuit_breaker max_failures reset_timeout probes in
      (guarded_run before cb).state ≢ closed → (guarded_run (before ++ after) cb).state ≢ closed
unfolding new_circuit_breaker
guarded_run_never_closes max_failures reset_timeout probes before after p n =
    let cb = new_circuit_breaker max_failures reset_timeout probes in
    subst (λ c. c.state ≢ closed) (sym (guarded_run-append before after cb))
      (guarded_run-open after (guarded_run before cb)
        (subst (λ q. 2 ≤ q) (sym (guarded_run-probes before cb)) p) n)
