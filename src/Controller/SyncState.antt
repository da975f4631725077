-- ===== src/Controller/SyncState.antt =====
-- `evaluateSyncState` of internal/controller/sync_state_machine.go: the phases of a node.
pub mod Branches
pub mod Steps
pub mod History
pub mod Budget
pub mod Throttle
pub mod Timeout
use tao_node_guardian.Base.{
  [], ℕ, ◌*◌, ◌/◌, String, List, ◌∷◌, Option, none, some, Bool, false, not, ◌&&◌, ◌||◌,
  if◌then◌else◌,
}
use tao_node_guardian.Base.Int.{ℤ, pos, sub_ℕ, ◌*ℤ◌, ltb_ℤ, leb_ℤ, wrap64}
use tao_node_guardian.Base.Errors.{ok}
use tao_node_guardian.Base.Format.{int, nat, ratio, score, sprintf, text}
use tao_node_guardian.Api.Spec.{SyncPolicySpec}
use tao_node_guardian.Api.Status.{syncing, synced, degraded, failed, is_true, is_false}
use tao_node_guardian.Controller.Conditions.{ConditionOps}
use tao_node_guardian.Controller.RateLimiter.{second, minute}
use tao_node_guardian.Controller.State.{
  normal, warning, Output, event, gauge, KubeClient, Run, put_status, set_phase, emit, set_cond,
  phase_of,
}
use tao_node_guardian.Controller.Health.{
  ChainHealthResult, AnomalyScore, has_critical_anomaly, block_lag_of, is_synced, seconds,
  is_pending, is_synced_phase, is_degraded, is_recovering, Outcome,
}
use tao_node_guardian.Controller.Recovery.{execute_recovery}

-- The loop that exports the anomaly scores.
unfoldable pub anomaly_gauges : String → String → List AnomalyScore → List Output → List Output
anomaly_gauges name ns [] out = out
anomaly_gauges name ns (a ∷ rest) out =
    anomaly_gauges name ns rest
      (gauge "anomalyScore" (name ∷ ns ∷ a.type_ ∷ []) (score a.score_units) ∷ out)

-- `time.Since(last) > timeout`; the product of the duration wraps at 64 bits as Go's does.
abbrev pub timed_out : ℕ → Option ℕ → ℤ → Bool
timed_out now none timeout = false
timed_out now (some last) timeout = ltb_ℤ timeout (sub_ℕ now last)

abbrev pub policy_of : {Q W : Type 0} → Run Q W → SyncPolicySpec
policy_of s = s.node.spec.sync_policy

abbrev pub probe_interval : {Q W : Type 0} → Run Q W → ℤ
probe_interval s = seconds (policy_of s).probe_interval_seconds

abbrev pub sync_timeout : {Q W : Type 0} → Run Q W → ℤ
sync_timeout s = wrap64 ((policy_of s).sync_timeout_minutes *ℤ pos minute)

module _ {Q W : Type 0} (conds : ConditionOps) (kube : KubeClient W) (now : ℕ) where
  -- The gauges, before the switch.
  unfoldable pub export_gauges : ChainHealthResult → List AnomalyScore → Run Q W → Run Q W
  export_gauges health anomalies s =
      let labels = s.node.name ∷ s.node.namespace_ ∷ s.node.spec.network ∷ [] in
      let in_sync = if is_synced health (policy_of s) then nat 1 else nat 0 in
      record s {
        outputs = anomaly_gauges s.node.name s.node.namespace_ anomalies (
            gauge "syncState" labels in_sync
            ∷ gauge "peerCount" labels (int health.peer_count)
            ∷ gauge "blockLag" labels (int (block_lag_of health))
            ∷ s.outputs);
      }

  unfoldable pub start_syncing : Run Q W → Outcome × Run Q W
  unfolding set_cond
  start_syncing s = (
    ok (probe_interval s),
    set_cond conds now "Synced" is_false "InitialSync"
        (text "Node is syncing from genesis or snapshot") (set_phase syncing s),
  )

  unfoldable pub in_sync : ChainHealthResult → Run Q W → Outcome × Run Q W
  unfolding set_cond
  in_sync health s =
      let lag = block_lag_of health in
      let told =
        if is_synced_phase (phase_of s)
        then s
        else emit
            (event normal "NodeSynced" (
              sprintf "Node is in-sync (lag: %d blocks, peers: %d)"
                (int lag ∷ int health.peer_count ∷ [])))
            s in
      let sync = record (told.node.status.sync_state) {
        last_synced_at = some now;
        sync_percentage = text "100%";
      } in
      let st = record (told.node.status) { phase = synced; sync_state = sync } in
      (
        ok (pos 0),
        set_cond conds now "Synced" is_true "InSync" (sprintf "Block lag: %d" (int lag ∷ []))
            (put_status st told),
      )

  -- Synced → Degraded, before it falls through to the recovery.
  unfoldable pub lose_sync : ChainHealthResult → Run Q W → Run Q W
  unfolding set_cond
  lose_sync health s =
      let args = int (block_lag_of health) ∷ int (policy_of s).max_block_lag ∷ [] in
      let told =
        emit
          (event warning "NodeDegraded"
            (sprintf "Sync lost: block lag %d exceeds threshold %d" args))
          s in
      set_cond conds now "Synced" is_false "SyncLost" (sprintf "Block lag %d > maxBlockLag %d" args)
        (set_phase degraded told)

  unfoldable pub give_up : Run Q W → Outcome × Run Q W
  unfolding set_cond
  give_up s =
      let count = s.node.status.restart_count in
      let stopped =
        set_cond conds now "Ready" is_false "MaxRestartsExceeded"
          (sprintf "Restart count %d exceeded max %d"
            (int count ∷ int (policy_of s).max_restart_attempts ∷ []))
          (set_phase failed s) in
      (
        ok (pos 0),
        emit
            (event warning "NodeFailed" (
              sprintf "TaoNode failed: restart budget exhausted after %d attempts"
                (int count ∷ [])))
            stopped,
      )

  unfoldable pub recover_in_budget : Run Q W → Outcome × Run Q W
  unfolding give_up
  recover_in_budget s =
      if leb_ℤ (policy_of s).max_restart_attempts s.node.status.restart_count
      then give_up s
      else execute_recovery conds kube now s

  unfoldable pub await_recovery : Run Q W → Outcome × Run Q W
  unfolding set_cond
  await_recovery s =
      let expired =
        set_cond conds now "Ready" is_false "RecoveryTimeout"
          (sprintf "Recovery exceeded %s timeout" (int (sync_timeout s) ∷ []))
          (set_phase failed s) in
      (
        ok (pos (30 * second)),
        if timed_out now s.node.status.last_reconcile_time (sync_timeout s) then expired else s,
      )

  unfoldable pub report_progress : ChainHealthResult → Run Q W → Outcome × Run Q W
  unfolding set_cond
  report_progress health s =
      let sync = record (s.node.status.sync_state) {
        sync_percentage = sprintf "%.1f%%" (ratio health.current_block health.network_block ∷ []);
      } in
      let st = record (s.node.status) { sync_state = sync } in
      let shown = if ltb_ℤ (pos 0) health.network_block then put_status st s else s in
      (
        ok (probe_interval s),
        set_cond conds now "Synced" is_false "Syncing"
            (sprintf "Block %d / %d (lag: %d)" (
              int health.current_block ∷ int health.network_block ∷ int (block_lag_of health) ∷ []))
            shown,
      )

  -- The switch: `ok_sync` is isSynced and `critical` is hasCriticalAnomaly.
  unfoldable pub switch_phase : ChainHealthResult → Bool → Bool → Run Q W → Outcome × Run Q W
  switch_phase health ok_sync critical s =
      if is_pending (phase_of s)
      then start_syncing s
      else if ok_sync && not critical
      then in_sync health s
      else if not ok_sync && is_synced_phase (phase_of s)
      then recover_in_budget (lose_sync health s)
      else if is_degraded (phase_of s) || critical
      then recover_in_budget s
      else if is_recovering (phase_of s)
      then await_recovery s
      else report_progress health s

  unfoldable pub evaluate_sync_state :
      ChainHealthResult → List AnomalyScore → Run Q W → Outcome × Run Q W
  unfolding export_gauges switch_phase start_syncing in_sync lose_sync recover_in_budget
      await_recovery report_progress
  evaluate_sync_state health anomalies s =
      switch_phase health (is_synced health (policy_of s)) (has_critical_anomaly anomalies)
        (export_gauges health anomalies s)
