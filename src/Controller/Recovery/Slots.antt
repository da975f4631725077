-- ===== src/Controller/Recovery/Slots.antt =====
-- What a recovery changes of the node, and which slot of the rate limiter it holds afterwards.
use tao_node_guardian.Base.{
  ℕ, ◌*◌, ◌≡◌, ◌⊎◌, inl, inr, refl, subst, String, arith, Option, none, some, Bool, true, false,
  ◌||◌, if◌then◌else◌, eq_iff, Bool-cases,
}
use tao_node_guardian.Base.Int.{pos, ◌+ℤ◌, wrap32}
use tao_node_guardian.Base.Errors.{ok}
use tao_node_guardian.Api.Spec.{SnapshotPolicySpec}
use tao_node_guardian.Api.Status.{TaoNodePhase, recovering, failed}
use tao_node_guardian.Controller.Conditions.{ConditionOps}
use tao_node_guardian.Controller.RateLimiter.{RecoveryRateLimiter, second, try_acquire, release}
use tao_node_guardian.Controller.State.{KubeClient, Run, phase_of}
use tao_node_guardian.Controller.Health.{is_failed, is_err, Outcome}
use tao_node_guardian.Controller.Snapshots.{trigger_with}
use tao_node_guardian.Controller.Recovery.{
  node_key, recovery_restart, recovery_snapshot_restore, recovery_cordon_and_alert,
  dispatch_recovery, settle, begin_recovery, recover_if, execute_recovery,
}
use tao_node_guardian.Base.Dict.{lookup, lookup-insert, lookup-erase}
use tao_node_guardian.Controller.RateLimiter.{evict_stale}

-- What the strategies leave alone: all of the node but its phase, its conditions and its snapshots,
-- and the limiter.
pub record Keeps {Q W : Type 0} (s t : Run Q W) : Type 0 where
  pub name : t.node.name ≡ s.node.name
  pub namespace_ : t.node.namespace_ ≡ s.node.namespace_
  pub spec : t.node.spec ≡ s.node.spec
  pub restart_count : t.node.status.restart_count ≡ s.node.status.restart_count
  pub last_reconcile_time : t.node.status.last_reconcile_time ≡ s.node.status.last_reconcile_time
  pub limiter : t.limiter ≡ s.limiter

abbrev pub OnTheWay : TaoNodePhase → Type 0
OnTheWay p = (p ≡ recovering) ⊎ (p ≡ failed)

acquired :
    (now : ℕ) (k : String) (rl : RecoveryRateLimiter)
    → (try_acquire now k rl).0 ≡ true
    → lookup k (try_acquire now k rl).1.active_recoveries ≡ some now
unfolding try_acquire
acquired now k rl h =
    ground (arith, lookup-insert k k now (evict_stale now rl).active_recoveries, eq_iff k k)

released :
    (k : String) (rl : RecoveryRateLimiter) → lookup k (release k rl).active_recoveries ≡ none
unfolding release
released k rl = ground (arith, lookup-erase k k rl.active_recoveries, eq_iff k k)

-- The slot that a node holds.
abbrev pub slot_of : {Q W : Type 0} → Run Q W → Option ℕ
slot_of s = lookup (node_key s.node) s.limiter.active_recoveries

-- A recovery is over if it returns an error or fails the node.
abbrev pub is_over : Outcome → TaoNodePhase → Bool
is_over r p = is_err r || is_failed p

module _ {Q W : Type 0} (conds : ConditionOps) (kube : KubeClient W) (now : ℕ) where
  trigger-Keeps :
      (policy : Option SnapshotPolicySpec) (reason : String) (s : Run Q W)
      → Keeps s (trigger_with kube now policy reason s).1
        × (phase_of (trigger_with kube now policy reason s).1 ≡ phase_of s)
  unfolding trigger_with
  trigger-Keeps none reason s = ground arith
  trigger-Keeps (some policy) reason s = ground arith

  restart-Keeps :
      (s : Run Q W)
      → Keeps s (recovery_restart conds kube now s).1
        × (phase_of (recovery_restart conds kube now s).1 ≡ phase_of s)
  unfolding recovery_restart
  restart-Keeps s = ground arith

  cordon-Keeps :
      (s : Run Q W)
      → Keeps s (recovery_cordon_and_alert conds kube now s).1
        × (phase_of (recovery_cordon_and_alert conds kube now s).1 ≡ failed)
  unfolding recovery_cordon_and_alert
  cordon-Keeps s = ground arith

  restore-Keeps :
      (s : Run Q W)
      → phase_of s ≡ recovering
      → Keeps s (recovery_snapshot_restore conds kube now s).1
        × (phase_of (recovery_snapshot_restore conds kube now s).1 ≡ recovering)
  unfolding recovery_snapshot_restore
  restore-Keeps s p =
      ground (arith, trigger-Keeps s.node.spec.snapshot_policy "pre-restore-backup" s)

  dispatch-Keeps :
      (strategy : String) (s : Run Q W)
      → phase_of s ≡ recovering
      → Keeps s (dispatch_recovery conds kube now strategy s).1
        × OnTheWay (phase_of (dispatch_recovery conds kube now strategy s).1)
  unfolding dispatch_recovery
  dispatch-Keeps strategy s p =
      unfold dispatch_recovery in ground (arith, restart-Keeps s, cordon-Keeps s, restore-Keeps s p)

  -- What `executeRecovery` does to the node when its slot is granted.
  pub recover_granted :
      (s : Run Q W)
      → let t = (recover_if conds kube now true s).1 in
        OnTheWay (phase_of t)
        × (t.node.status.restart_count ≡ wrap32 (s.node.status.restart_count +ℤ pos 1))
        × (t.node.spec ≡ s.node.spec)
        × (t.node.status.last_reconcile_time ≡ s.node.status.last_reconcile_time)
  unfolding recover_if
  recover_granted s = ground (
    arith,
    dispatch-Keeps s.node.spec.sync_policy.recovery_strategy (begin_recovery conds kube now s) refl,
  )

  settle_slot :
      (r : Outcome) (s : Run Q W)
      → let (r', t) = settle conds kube now (r, s) in
        slot_of t ≡ (if is_over r' (phase_of t) then none else slot_of s)
  unfolding settle
  settle_slot r s = elim (Bool-cases (is_over r (phase_of s))) [
    | inl over ↦ rw over (rw over (released (node_key s.node) s.limiter))
    | inr going ↦ rw going (rw going refl)
  ]

  Keeps-slot_of : {s t : Run Q W} → Keeps s t → slot_of t ≡ slot_of s
  Keeps-slot_of k = cc (k.name, k.namespace_, k.limiter)

  granted_slot :
      (s : Run Q W)
      → let (r, t) = recover_if conds kube now true s in
        slot_of t ≡ (if is_over r (phase_of t) then none else slot_of s)
  unfolding recover_if
  granted_slot s =
      let started = begin_recovery conds kube now s in
      let strategy = s.node.spec.sync_policy.recovery_strategy in
      let done = dispatch_recovery conds kube now strategy started in
      let kept = (dispatch-Keeps strategy started refl).0 in
      let before : slot_of done.1 ≡ slot_of s = Keeps-slot_of {s = started} kept in
      subst
        (λ o. slot_of (settle conds kube now done).1 ≡ (
          if is_over (settle conds kube now done).0 (phase_of (settle conds kube now done).1)
          then none
          else o))
        before (settle_slot done.0 done.1)

  -- When the limiter grants a recovery, afterwards the node holds the slot, stamped with the present
  -- time, exactly if the recovery returned no error and did not fail the node; otherwise it holds
  -- none.
  pub execute_recovery_slot :
      (s : Run Q W)
      → (try_acquire now (node_key s.node) s.limiter).0 ≡ true
      → let (r, t) = execute_recovery conds kube now s in
        slot_of t ≡ (if is_over r (phase_of t) then none else some now)
  unfolding execute_recovery
  execute_recovery_slot s h =
      let s' = record s { limiter = (try_acquire now (node_key s.node) s.limiter).1 } in
      rw h (
        subst
          (λ o. slot_of (recover_if conds kube now true s').1 ≡ (
            if is_over (recover_if conds kube now true s').0
              (phase_of (recover_if conds kube now true s').1)
            then none
            else o))
          (acquired now (node_key s.node) s.limiter h) (granted_slot s'))

  -- When the limiter refuses a recovery, the node and the cluster stay as they were, and the call asks to be made again
  -- after 30 seconds.
  pub execute_recovery_refused :
      (s : Run Q W)
      → (try_acquire now (node_key s.node) s.limiter).0 ≡ false
      → let (r, t) = execute_recovery conds kube now s in
        (r ≡ ok (pos (30 * second))) × (t.node ≡ s.node) × (t.world ≡ s.world)
  unfolding execute_recovery
  execute_recovery_refused s h = rw h (refl, refl, refl)
