-- ===== src/Controller/Recovery.antt =====
-- The recovery of a node that lost sync: `executeRecovery` and the strategies of
-- internal/controller/sync_state_machine.go, and `recoverySnapshotRestore` of snapshot_manager.go.
pub mod Slots
use tao_node_guardian.Base.{
  [], ℕ, ◌*◌, String, List, ◌∷◌, Bool, true, false, not, ◌||◌, if◌then◌else◌, str_eq,
}
use tao_node_guardian.Base.Int.{pos, ◌+ℤ◌, wrap32}
use tao_node_guardian.Base.{join}
use tao_node_guardian.Base.Errors.{Error, wrap, Result, ok, err, is_not_found}
use tao_node_guardian.Base.Format.{str, int, nat, sprintf, text}
use tao_node_guardian.Api.Status.{TaoNode, recovering, failed, is_false}
use tao_node_guardian.Controller.Conditions.{ConditionOps}
use tao_node_guardian.Controller.RateLimiter.{second, minute, try_acquire, release, active_count}
use tao_node_guardian.Controller.State.{
  normal, warning, event, inc, Pod, KubeClient, Run, put_status, set_phase, emit, set_cond,
  phase_of,
}
use tao_node_guardian.Controller.Health.{is_failed, is_err, Outcome}
use tao_node_guardian.Controller.Snapshots.{trigger_snapshot}

abbrev node_labels : {Q : Type 0} → TaoNode Q → List String → List String
node_labels tn more = tn.name ∷ tn.namespace_ ∷ more

abbrev pub node_key : {Q : Type 0} → TaoNode Q → String
node_key tn = join (join tn.namespace_ "/") tn.name

abbrev pub pod_name : {Q : Type 0} → TaoNode Q → String
pod_name tn = join tn.name "-0"

-- `client.IgnoreNotFound(err)` beside an empty result.
abbrev pub ignore_not_found : Error → Outcome
ignore_not_found e = if is_not_found e then ok (pos 0) else err e

-- The deletion of the pod that was found, if any.
unfoldable pub delete_found : {W : Type 0} → KubeClient W → Result Pod → W → Result (Unit {0}) × W
delete_found kube (ok pod) w = kube.delete_pod pod w
delete_found kube (err _) w = (ok tt, w)

module _ {Q W : Type 0} (conds : ConditionOps) (kube : KubeClient W) (now : ℕ) where
  unfoldable pub restarted : Run Q W → Outcome × Run Q W
  restarted s =
      let counted = emit (inc "recoveryTotal" (node_labels s.node ("restart" ∷ []))) s in
      let told =
        emit
          (event normal "RecoveryRestart" (
            sprintf "Pod %s deleted for restart recovery (attempt %d/%d)" (
              str (pod_name s.node)
              ∷ int s.node.status.restart_count
              ∷ int s.node.spec.sync_policy.max_restart_attempts
              ∷ [])))
          counted in
      (ok (pos (60 * second)), told)

  unfoldable pub restart_pod : Result Pod → Run Q W → Outcome × Run Q W
  unfolding restarted
  restart_pod (err e) s = (ignore_not_found e, s)
  restart_pod (ok pod) s =
      let (r, w') = kube.delete_pod pod s.world in
      let s' = record s { world = w' } in
      elim r [
        | ok _ ↦ restarted s'
        | err e ↦ (err (wrap "delete pod for restart recovery: %w" e), s')
      ]

  unfoldable pub recovery_restart : Run Q W → Outcome × Run Q W
  unfolding restart_pod
  recovery_restart s = restart_pod (kube.get_pod s.node.namespace_ (pod_name s.node) s.world) s

  unfoldable pub restore_requested : Run Q W → Outcome × Run Q W
  restore_requested s =
      let told =
        emit
          (event warning "SnapshotRestoreRequired" (
            text
              "Snapshot-restore recovery triggered. Manual PVC restoration from latest snapshot may be needed if restart does not resolve sync loss."))
          s in
      let again = set_phase recovering told in
      (
        ok (pos (60 * second)),
        emit (inc "recoveryTotal" (node_labels s.node ("snapshot-restore" ∷ []))) again,
      )

  -- The error of the snapshot that is taken first is dropped, and so is one of looking up the pod.
  unfoldable pub recovery_snapshot_restore : Run Q W → Outcome × Run Q W
  unfolding delete_found restore_requested trigger_snapshot
  recovery_snapshot_restore s =
      let backed_up = (trigger_snapshot kube now "pre-restore-backup" s).1 in
      let found =
        kube.get_pod backed_up.node.namespace_ (pod_name backed_up.node) backed_up.world in
      let (r, w') = delete_found kube found backed_up.world in
      let s' = record backed_up { world = w' } in
      elim r [
        | ok _ ↦ restore_requested s'
        | err e ↦ (err (wrap "delete pod for snapshot-restore: %w" e), s')
      ]

  unfoldable pub recovery_cordon_and_alert : Run Q W → Outcome × Run Q W
  unfolding set_cond
  recovery_cordon_and_alert s =
      let cordoned =
        set_cond conds now "Ready" is_false "CordonAndAlert"
          (text "Node cordon-and-alert strategy invoked — manual intervention required")
          (set_phase failed s) in
      let told =
        emit
          (event warning "NodeCordoned" (
            text
              "TaoNode cordoned: automatic recovery disabled (strategy: cordon-and-alert). Manual intervention required."))
          cordoned in
      (
        ok (pos (5 * minute)),
        emit (inc "recoveryTotal" (node_labels s.node ("cordon-and-alert" ∷ []))) told,
      )

  -- The switch on the strategy; an unknown one restarts the pod.
  unfoldable pub dispatch_recovery : String → Run Q W → Outcome × Run Q W
  unfolding recovery_restart recovery_snapshot_restore recovery_cordon_and_alert
  dispatch_recovery strategy s =
      if str_eq strategy "restart"
      then recovery_restart s
      else if str_eq strategy "snapshot-restore"
      then recovery_snapshot_restore s
      else if str_eq strategy "cordon-and-alert"
      then recovery_cordon_and_alert s
      else recovery_restart s

  -- `err != nil || tn.Status.Phase == PhaseFailed` gives the slot back.
  unfoldable pub settle : Outcome × Run Q W → Outcome × Run Q W
  settle (r, s) =
      if is_err r || is_failed (phase_of s)
      then (r, record s { limiter = release (node_key s.node) s.limiter })
      else (r, s)

  unfoldable pub begin_recovery : Run Q W → Run Q W
  begin_recovery s =
      let st = s.node.status in
      let st' = record st {
        phase = recovering;
        restart_count = wrap32 (st.restart_count +ℤ pos 1);
      } in
      put_status st' s

  unfoldable pub recover_if : Bool → Run Q W → Outcome × Run Q W
  unfolding dispatch_recovery settle begin_recovery
  recover_if false s = (
    ok (pos (30 * second)),
    emit
        (event normal "RecoveryThrottled" (
          sprintf "Recovery rate-limited (%d/%d active), requeuing in 30s"
            (nat (active_count s.limiter) ∷ nat 5 ∷ [])))
        s,
  )
  recover_if true s =
      settle (dispatch_recovery s.node.spec.sync_policy.recovery_strategy (begin_recovery s))

  unfoldable pub execute_recovery : Run Q W → Outcome × Run Q W
  unfolding recover_if
  execute_recovery s =
      let (granted, limiter) = try_acquire now (node_key s.node) s.limiter in
      recover_if granted (record s { limiter = limiter })
