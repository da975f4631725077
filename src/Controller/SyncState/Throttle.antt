-- ===== src/Controller/SyncState/Throttle.antt =====
-- When an evaluation of the sync state may touch the cluster.
use tao_node_guardian.Base.{ℕ, ◌≡◌, ◌≢◌, inl, inr, List, true}
use tao_node_guardian.Base.Int.{◌<ℤ◌}
use tao_node_guardian.Controller.Conditions.{ConditionOps}
use tao_node_guardian.Controller.RateLimiter.{try_acquire}
use tao_node_guardian.Controller.State.{KubeClient, Run, phase_of}
use tao_node_guardian.Controller.Health.{
  ChainHealthResult, AnomalyScore, has_critical_anomaly, is_synced,
}
use tao_node_guardian.Controller.Recovery.{node_key}
use tao_node_guardian.Controller.SyncState.{policy_of, evaluate_sync_state}
use tao_node_guardian.Controller.SyncState.Steps.{InNeed, evaluate-Evaluated}

module _ {Q W : Type 0} (conds : ConditionOps) (kube : KubeClient W) (now : ℕ) where
  -- If an evaluation changes the cluster in any way (a pod is deleted, a snapshot taken or pruned), then
  -- the rate limiter granted the node a slot at that time, the restart budget was not used up, and the
  -- node was in need: an anomaly was critical, or it was out of sync and had been synced or degraded.
  pub evaluate_acts :
      (h : ChainHealthResult) (anomalies : List AnomalyScore) (s : Run Q W)
      → (evaluate_sync_state conds kube now h anomalies s).1.world ≢ s.world
      → ((try_acquire now (node_key s.node) s.limiter).0 ≡ true)
        × (s.node.status.restart_count <ℤ (policy_of s).max_restart_attempts)
        × InNeed (is_synced h (policy_of s)) (has_critical_anomaly anomalies) (phase_of s)
  evaluate_acts h anomalies s acts = elim (evaluate-Evaluated conds kube now h anomalies s) [
    | inl (at, need) ↦ (at.granted, at.in_budget, need)
    | inr (i, calm) ↦ absurd (acts i.world)
  ]
