-- ===== src/Controller/SyncState/Timeout.antt =====
-- The recovery time-out, which is measured from the last stamp of the node and not from the recovery's
-- start.
use tao_node_guardian.Base.{
  ℕ, ◌*◌, ◌≡◌, refl, sym, ap, ◌∙◌, subst, List, [], ◌∷◌, arith, some, false,
}
use tao_node_guardian.Base.Int.{pos, ◌*ℤ◌, wrap64}
use tao_node_guardian.Base.Errors.{ok}
use tao_node_guardian.Base.Format.{Formatted}
use tao_node_guardian.Api.Spec.{SyncPolicySpec}
use tao_node_guardian.Api.Status.{recovering, Condition}
use tao_node_guardian.Controller.Conditions.{ConditionOps}
use tao_node_guardian.Controller.RateLimiter.{second, minute}
use tao_node_guardian.Controller.State.{KubeClient, Run, phase_of}
use tao_node_guardian.Controller.Health.{
  ChainHealthResult, AnomalyScore, has_critical_anomaly, is_synced,
}
use tao_node_guardian.Controller.SyncState.{
  policy_of, export_gauges, timed_out, sync_timeout, await_recovery, switch_phase,
  evaluate_sync_state,
}
use tao_node_guardian.Controller.SyncState.History.{
  Input, Round, evaluates, stops, reconcile_sync, stop_early, reconcile_round, reconcile_all,
}

-- Out of sync, with no critical anomaly, and soon enough after the evaluation before it.
pub record Slow (policy : SyncPolicySpec) (last : ℕ) (i : Input) : Type 0 where
  pub out_of_sync : is_synced i.health policy ≡ false
  pub quiet : has_critical_anomaly i.anomalies ≡ false
  pub soon :
      timed_out i.now (some last) (wrap64 (policy.sync_timeout_minutes *ℤ pos minute)) ≡ false

-- A call that stops before the evaluation does not stamp the node.
abbrev pub AllSlow : SyncPolicySpec → ℕ → List Round → Type 0
AllSlow policy last [] = Unit {0}
AllSlow policy last (evaluates i ∷ rs) = Slow policy last i × AllSlow policy i.now rs
AllSlow policy last (stops _ _ ∷ rs) = AllSlow policy last rs

module _ {Q W : Type 0} (conds : ConditionOps) (kube : KubeClient W) where
  -- A recovering node that was stamped last at this time.
  pub record Waiting (policy : SyncPolicySpec) (last : ℕ) (s : Run Q W) : Type 0 where
    pub same_policy : policy_of s ≡ policy
    pub recovers : phase_of s ≡ recovering
    pub stamped_at : s.node.status.last_reconcile_time ≡ some last

  await_soon :
      (now : ℕ) (s : Run Q W)
      → timed_out now s.node.status.last_reconcile_time (sync_timeout s) ≡ false
      → await_recovery conds kube now s ≡ (ok (pos (30 * second)), s)
  unfolding await_recovery
  await_soon now s e = rw e

  switch_recovering :
      (now : ℕ) (h : ChainHealthResult) (s : Run Q W)
      → phase_of s ≡ recovering
      → switch_phase conds kube now h false false s ≡ await_recovery conds kube now s
  unfolding switch_phase
  switch_recovering now h s e = ground arith

  evaluate_lem :
      (now : ℕ) (h : ChainHealthResult) (anomalies : List AnomalyScore) (s : Run Q W)
      → evaluate_sync_state conds kube now h anomalies s
        ≡ switch_phase conds kube now h
            (is_synced h (policy_of s))
            (has_critical_anomaly anomalies)
            (export_gauges conds kube now h anomalies s)
  unfolding evaluate_sync_state
  evaluate_lem now h anomalies s = refl

  exported :
      (i : Input) (s : Run Q W)
      → phase_of s ≡ recovering
      → timed_out i.now s.node.status.last_reconcile_time (sync_timeout s) ≡ false
      → switch_phase conds kube i.now i.health false false
          (export_gauges conds kube i.now i.health i.anomalies s)
        ≡ (ok (pos (30 * second)), export_gauges conds kube i.now i.health i.anomalies s)
  unfolding export_gauges
  exported i s p t =
      let e = export_gauges conds kube i.now i.health i.anomalies s in
      switch_recovering i.now i.health e p ∙ await_soon i.now e t

  Slow-outcome :
      (policy : SyncPolicySpec) (last : ℕ) (i : Input) (s : Run Q W)
      → Slow policy last i
      → Waiting policy last s
      → evaluate_sync_state conds kube i.now i.health i.anomalies s
        ≡ (ok (pos (30 * second)), export_gauges conds kube i.now i.health i.anomalies s)
  Slow-outcome policy last i s slow w =
      let calm : is_synced i.health (policy_of s) ≡ false =
        subst (λ p. is_synced i.health p ≡ false) (sym w.same_policy) slow.out_of_sync in
      let in_time : timed_out i.now s.node.status.last_reconcile_time (sync_timeout s) ≡ false =
        subst (λ o. timed_out i.now o (sync_timeout s) ≡ false) (sym w.stamped_at)
          (subst
            (λ p.
              timed_out i.now (some last) (wrap64 (p.sync_timeout_minutes *ℤ pos minute)) ≡ false)
            (sym w.same_policy) slow.soon) in
      let e = export_gauges conds kube i.now i.health i.anomalies s in
      evaluate_lem i.now i.health i.anomalies s
      ∙ ap (λ a. switch_phase conds kube i.now i.health a (has_critical_anomaly i.anomalies) e) calm
      ∙ ap (λ c. switch_phase conds kube i.now i.health false c e) slow.quiet
      ∙ exported i s w.recovers in_time

  reconcile-Slow :
      (policy : SyncPolicySpec) (last : ℕ) (i : Input) (s : Run Q W)
      → Slow policy last i
      → Waiting policy last s
      → Waiting policy i.now (reconcile_sync conds kube i s)
  unfolding reconcile_sync export_gauges
  reconcile-Slow policy last i s slow w =
      rw (Slow-outcome policy last i s slow w)
        (record { same_policy = w.same_policy; recovers = w.recovers; stamped_at = refl })

  stop-Waiting :
      (policy : SyncPolicySpec) (last : ℕ) (conditions : List Condition) (hash : Formatted)
      (s : Run Q W)
      → Waiting policy last s
      → Waiting policy last (stop_early conds kube conditions hash s)
  unfolding stop_early
  stop-Waiting policy last conditions hash s w = record {
    same_policy = w.same_policy;
    recovers = w.recovers;
    stamped_at = w.stamped_at;
  }

  -- A recovery is never timed out while the reconciles that reach the evaluation and store its status
  -- are at most a time-out apart, whatever other reconciles stop before it: however long the node is out
  -- of sync, without a critical anomaly, it stays in recovery.
  pub never_times_out :
      (policy : SyncPolicySpec) (last : ℕ) (rs : List Round) (s : Run Q W)
      → AllSlow policy last rs
      → Waiting policy last s
      → phase_of (reconcile_all conds kube rs s) ≡ recovering
  unfolding reconcile_all reconcile_round
  never_times_out policy last [] s slow w = w.recovers
  never_times_out policy last (evaluates i ∷ rs) s slow w =
      never_times_out policy i.now rs (reconcile_sync conds kube i s) slow.1
        (reconcile-Slow policy last i s slow.0 w)
  never_times_out policy last (stops conditions hash ∷ rs) s slow w =
      never_times_out policy last rs (stop_early conds kube conditions hash s) slow
        (stop-Waiting policy last conditions hash s w)
