-- ===== src/Examples/Sync.antt =====
-- Evaluations of the sync state.
use tao_node_guardian.Base.{ℕ, ◌∷◌, [], ◌≡◌, ◌≢◌, ◌*◌, refl, none, some, true, arith, List}
use tao_node_guardian.Base.Int.{pos, ◌<ℤ◌, ◌≤ℤ◌, wrap64, ◌-ℤ◌, ◌*ℤ◌}
use tao_node_guardian.Base.Format.{text}
use tao_node_guardian.Api.Status.{synced, recovering}
use tao_node_guardian.Controller.RateLimiter.{minute, new_recovery_rate_limiter, try_acquire}
use tao_node_guardian.Controller.State.{Run, phase_of, set_cond}
use tao_node_guardian.Base.Dict.{lookup, retain}
use tao_node_guardian.Controller.Health.{is_synced, has_critical_anomaly, block_lag_of}
use tao_node_guardian.Controller.SyncState.{recover_in_budget, policy_of, evaluate_sync_state}
use tao_node_guardian.Controller.SyncState.Steps.{InNeed, Evaluated, evaluate-Evaluated}
use tao_node_guardian.Controller.SyncState.Throttle.{evaluate_acts}
use tao_node_guardian.Controller.SyncState.History.{Round, evaluates, stops, reconcile_all}
use tao_node_guardian.Controller.SyncState.Budget.{InBudget, reconcile_all-InBudget}
use tao_node_guardian.Controller.SyncState.Timeout.{never_times_out}
use tao_node_guardian.Controller.Recovery.{node_key, execute_recovery}
use tao_node_guardian.Examples.Nodes.{conditions, pods, run_in, sync_policy, lagging}

abbrev lost : Run ℕ ℕ
lost = run_in synced none

evaluate-Evaluated_example :
    Evaluated conditions pods minute
      (is_synced lagging (policy_of lost))
      (has_critical_anomaly [])
      lost
      (evaluate_sync_state conditions pods minute lagging [] lost).1
evaluate-Evaluated_example = evaluate-Evaluated conditions pods minute lagging [] lost

deleted : (evaluate_sync_state conditions pods minute lagging [] lost).1.world ≡ 1
unfolding evaluate_sync_state execute_recovery is_synced has_critical_anomaly try_acquire
    new_recovery_rate_limiter block_lag_of wrap64 ◌-ℤ◌ lookup retain recover_in_budget set_cond
deleted = refl

acted : (evaluate_sync_state conditions pods minute lagging [] lost).1.world ≢ 0
acted e = omega (arith, deleted, e)

evaluate_acts_example :
    ((try_acquire minute (node_key lost.node) lost.limiter).0 ≡ true)
    × (pos 0 <ℤ pos 3)
    × InNeed (is_synced lagging (policy_of lost)) (has_critical_anomaly []) synced
evaluate_acts_example = evaluate_acts conditions pods minute lagging [] lost acted

abbrev lags : ℕ → Round
lags t = evaluates (record { now = t * minute; health = lagging; anomalies = [] })

-- A reconcile whose probe failed.
abbrev no_probe : Round
no_probe = stops [] (text "")

abbrev rounds : List Round
rounds = lags 1 ∷ no_probe ∷ lags 20 ∷ []

reconcile_all-InBudget_example :
    InBudget (pos 3) (reconcile_all conditions pods rounds lost)
    × (pos 0 ≤ℤ (reconcile_all conditions pods rounds lost).node.status.restart_count)
reconcile_all-InBudget_example =
    reconcile_all-InBudget conditions pods (pos 3) (omega arith) rounds lost
      (record { limit_kept = refl; within = omega arith; in_range = (omega arith, omega arith) })

-- Evaluated every few minutes, for longer than the time-out of ten minutes in the end.
abbrev minutely : List Round
minutely = lags 1 ∷ lags 6 ∷ no_probe ∷ lags 12 ∷ []

never_times_out_example :
    phase_of (reconcile_all conditions pods minutely (run_in recovering (some 0))) ≡ recovering
unfolding is_synced has_critical_anomaly block_lag_of wrap64 ◌-ℤ◌ ◌*ℤ◌
never_times_out_example =
    never_times_out conditions pods sync_policy 0 minutely (run_in recovering (some 0))
      (
        record { out_of_sync = refl; quiet = refl; soon = refl },
        (
          record { out_of_sync = refl; quiet = refl; soon = refl },
          (record { out_of_sync = refl; quiet = refl; soon = refl }, tt),
        ),
      )
      (record { same_policy = refl; recovers = refl; stamped_at = refl })
