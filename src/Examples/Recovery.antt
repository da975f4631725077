-- ===== src/Examples/Recovery.antt =====
-- Recoveries that the rate limiter grants and refuses.
use tao_node_guardian.Base.{ℕ, ◌≡◌, refl, none, some, if◌then◌else◌}
use tao_node_guardian.Base.Dict.{lookup, retain}
use tao_node_guardian.Api.Status.{degraded}
use tao_node_guardian.Controller.RateLimiter.{minute, new_recovery_rate_limiter, try_acquire}
use tao_node_guardian.Controller.State.{Run, phase_of}
use tao_node_guardian.Controller.Recovery.{execute_recovery}
use tao_node_guardian.Controller.Recovery.Slots.{slot_of, is_over, execute_recovery_slot}
use tao_node_guardian.Examples.Nodes.{conditions, pods, run_in}

abbrev lost : Run ℕ ℕ
lost = run_in degraded none

execute_recovery_slot_example :
    let (r, t) = execute_recovery conditions pods minute lost in
    slot_of t ≡ (if is_over r (phase_of t) then none else some minute)
unfolding try_acquire new_recovery_rate_limiter retain lookup
execute_recovery_slot_example = execute_recovery_slot conditions pods minute lost refl
