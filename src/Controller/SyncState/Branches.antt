-- ===== src/Controller/SyncState/Branches.antt =====
-- The branches of `evaluateSyncState` in internal/controller/sync_state_machine.go one by one: what each
-- changes in the node and in the cluster.
use tao_node_guardian.Base.{
  ℕ, ◌≡◌, ◌⊎◌, inl, inr, refl, sym, subst, ap, arith, Bool, true, false, if◌then◌else◌, Bool-cases,
}
use tao_node_guardian.Base.Int.{pos, ◌+ℤ◌, ◌<ℤ◌, leb_ℤ, wrap32}
use tao_node_guardian.Api.Status.{syncing, synced, degraded, failed}
use tao_node_guardian.Controller.Conditions.{ConditionOps}
use tao_node_guardian.Controller.RateLimiter.{try_acquire}
use tao_node_guardian.Controller.State.{KubeClient, Run, phase_of}
use tao_node_guardian.Controller.Health.{ChainHealthResult}
use tao_node_guardian.Controller.Recovery.{node_key, execute_recovery}
use tao_node_guardian.Controller.Recovery.Slots.{
  OnTheWay, recover_granted, execute_recovery_refused,
}
use tao_node_guardian.Controller.SyncState.{
  policy_of, start_syncing, in_sync, lose_sync, give_up, recover_in_budget, timed_out, sync_timeout,
  await_recovery, report_progress,
}

-- What every branch leaves alone.
pub record Fixed {Q W : Type 0} (s t : Run Q W) : Type 0 where
  pub spec : t.node.spec ≡ s.node.spec
  pub last_reconcile_time : t.node.status.last_reconcile_time ≡ s.node.status.last_reconcile_time

-- A branch that makes no attempt: the restart count and the cluster stay, too.
pub record Idle {Q W : Type 0} (s t : Run Q W) : Type 0 where
  pub fixed : Fixed s t
  pub restart_count : t.node.status.restart_count ≡ s.node.status.restart_count
  pub world : t.world ≡ s.world

module _ {Q W : Type 0} (conds : ConditionOps) (kube : KubeClient W) (now : ℕ) where
  -- Whether the restart budget is used up.
  abbrev pub is_spent : Run Q W → Bool
  is_spent s = leb_ℤ (policy_of s).max_restart_attempts s.node.status.restart_count

  -- Whether the limiter gives the node a slot.
  abbrev pub granted_to : Run Q W → Bool
  granted_to s = (try_acquire now (node_key s.node) s.limiter).0

  -- An attempt: the limiter granted it, the budget was not used up, and it is counted.
  pub record Attempt (s t : Run Q W) : Type 0 where
    pub fixed : Fixed s t
    pub granted : granted_to s ≡ true
    pub in_budget : s.node.status.restart_count <ℤ (policy_of s).max_restart_attempts
    pub counted : t.node.status.restart_count ≡ wrap32 (s.node.status.restart_count +ℤ pos 1)
    pub on_the_way : OnTheWay (phase_of t)

  -- An attempt, or a failure since the budget is used up, or nothing since the limiter refused.
  abbrev pub Budgeted : Run Q W → Run Q W → Type 0
  Budgeted s t =
      Attempt s t
      ⊎ (Idle s t
          × (((is_spent s ≡ true) × (phase_of t ≡ failed))
              ⊎ ((granted_to s ≡ false) × (phase_of t ≡ phase_of s))))

  give_up-Idle :
      (s : Run Q W)
      → Idle s (give_up conds kube now s).1 × (phase_of (give_up conds kube now s).1 ≡ failed)
  unfolding give_up
  give_up-Idle s = ground arith

  execute-Budgeted :
      (s : Run Q W)
      → s.node.status.restart_count <ℤ (policy_of s).max_restart_attempts
      → Budgeted s (execute_recovery conds kube now s).1
  execute-Budgeted s b = elim (Bool-cases (granted_to s)) [
    | inl yes_slot ↦ inl (attempt yes_slot)
    | inr no_slot ↦
        let (r, n, w) = execute_recovery_refused conds kube now s no_slot in
        inr (idle n w, inr (no_slot, ap (λ tn. tn.status.phase) n))
  ]
    where
      attempt : granted_to s ≡ true → Attempt s (execute_recovery conds kube now s).1
      attempt h =
          let s' = record s { limiter = (try_acquire now (node_key s.node) s.limiter).1 } in
          let (way, count, spec, time) = recover_granted conds kube now s' in
          unfold execute_recovery in
          rw h (record {
            fixed = record { spec = spec; last_reconcile_time = time };
            granted = h;
            in_budget = b;
            counted = count;
            on_the_way = way;
          })

      idle :
          (execute_recovery conds kube now s).1.node ≡ s.node
          → (execute_recovery conds kube now s).1.world ≡ s.world
          → Idle s (execute_recovery conds kube now s).1
      idle n w = record {
        fixed = record {
          spec = ap (λ tn. tn.spec) n;
          last_reconcile_time = ap (λ tn. tn.status.last_reconcile_time) n;
        };
        restart_count = ap (λ tn. tn.status.restart_count) n;
        world = w;
      }

  recover_spent :
      (s : Run Q W)
      → is_spent s ≡ true
      → recover_in_budget conds kube now s ≡ give_up conds kube now s
  unfolding recover_in_budget
  recover_spent s spent = rw spent refl

  recover_left :
      (s : Run Q W)
      → is_spent s ≡ false
      → recover_in_budget conds kube now s ≡ execute_recovery conds kube now s
  unfolding recover_in_budget
  recover_left s left = rw left refl

  pub recover-Budgeted : (s : Run Q W) → Budgeted s (recover_in_budget conds kube now s).1
  recover-Budgeted s = elim (Bool-cases (is_spent s)) [
    | inl spent ↦
        let (i, p) = give_up-Idle s in
        subst (λ t. Budgeted s t.1) (sym (recover_spent s spent)) (inr (i, inl (spent, p)))
    | inr left ↦
        subst (λ t. Budgeted s t.1) (sym (recover_left s left)) (execute-Budgeted s (ground arith))
  ]

  pub start-Idle :
      (s : Run Q W)
      → Idle s (start_syncing conds kube now s).1
        × (phase_of (start_syncing conds kube now s).1 ≡ syncing)
  unfolding start_syncing
  start-Idle s = ground arith

  pub in_sync-Idle :
      (h : ChainHealthResult) (s : Run Q W)
      → Idle s (in_sync conds kube now h s).1 × (phase_of (in_sync conds kube now h s).1 ≡ synced)
  unfolding in_sync
  in_sync-Idle h s = ground arith

  pub report-Idle :
      (h : ChainHealthResult) (s : Run Q W)
      → Idle s (report_progress conds kube now h s).1
        × (phase_of (report_progress conds kube now h s).1 ≡ phase_of s)
  unfolding report_progress
  report-Idle h s = ground arith

  pub await-Idle :
      (s : Run Q W)
      → Idle s (await_recovery conds kube now s).1
        × (phase_of (await_recovery conds kube now s).1 ≡ (
            if timed_out now s.node.status.last_reconcile_time (sync_timeout s)
            then failed
            else phase_of s))
  unfolding await_recovery
  await-Idle s =
      elim (Bool-cases (timed_out now s.node.status.last_reconcile_time (sync_timeout s))) [
        | inl late ↦ rw late (ground arith)
        | inr soon ↦ rw soon (ground arith)
      ]

  -- Losing sync changes the phase, a condition and the events.
  pub lose-Idle :
      (h : ChainHealthResult) (s : Run Q W)
      → let t = lose_sync conds kube now h s in
        Idle s t
        × (phase_of t ≡ degraded)
        × (t.limiter ≡ s.limiter)
        × (node_key t.node ≡ node_key s.node)
  unfolding lose_sync
  lose-Idle h s = ground arith
