-- ===== src/Ai/Limiter.antt =====
-- The rate limiter of the AI advisor, `advisorRateLimiter` of internal/ai/advisor.go. A method holds the
-- mutex, so that each call is one step.
use tao_node_guardian.Base.{ℕ, ◌+◌, Bool, true, false, ltb, if◌then◌else◌}
use tao_node_guardian.Base.Int.{ℤ, pos, leb_ℤ}

pub record AdvisorRateLimiter : Type 0 where
  pub calls : ℕ
  pub max_calls : ℤ
  pub window : ℕ
  pub reset_at : ℕ

unfoldable pub new_advisor_rate_limiter : ℤ → ℕ → ℕ → AdvisorRateLimiter
new_advisor_rate_limiter max_calls window now = record {
  calls = 0;
  max_calls = max_calls;
  window = window;
  reset_at = now + window;
}

-- The window starts anew; the clock is read again for its end.
unfoldable pub renewed_window : ℕ → ℕ → AdvisorRateLimiter → AdvisorRateLimiter
renewed_window now again r =
    if ltb r.reset_at now then record r { calls = 0; reset_at = again + r.window } else r

abbrev pub counted_call : AdvisorRateLimiter → Bool × AdvisorRateLimiter
counted_call r =
    if leb_ℤ r.max_calls (pos r.calls) then (false, r) else (true, record r { calls = r.calls + 1 })

unfoldable pub allow_call : ℕ → ℕ → AdvisorRateLimiter → Bool × AdvisorRateLimiter
unfolding renewed_window
allow_call now again r = counted_call (renewed_window now again r)
