-- ===== src/Controller/SyncState/Steps.antt =====
-- What one evaluation of the sync state may change, branch by branch: the facts that the theorems about
-- phases, restarts and the cluster share.
use tao_node_guardian.Base.{
  ℕ, ◌≡◌, ◌≢◌, ◌⊎◌, inl, inr, refl, ◌∙◌, List, arith, Bool, true, false, not, ◌&&◌, Bool-cases,
}
use tao_node_guardian.Api.Status.{
  TaoNodePhase, pending, syncing, synced, degraded, recovering, failed,
}
use tao_node_guardian.Controller.Conditions.{ConditionOps}
use tao_node_guardian.Controller.State.{KubeClient, Run, phase_of}
use tao_node_guardian.Controller.Health.{
  ChainHealthResult, AnomalyScore, has_critical_anomaly, is_synced, is_pending, is_synced_phase,
  is_degraded, is_recovering,
}
use tao_node_guardian.Controller.SyncState.{
  policy_of, export_gauges, lose_sync, recover_in_budget, timed_out, sync_timeout, await_recovery,
  switch_phase, evaluate_sync_state,
}
use tao_node_guardian.Controller.SyncState.Branches.{
  Fixed, Idle, is_spent, granted_to, Attempt, recover-Budgeted, start-Idle, in_sync-Idle,
  report-Idle, await-Idle, lose-Idle,
}

-- A node is in need if an anomaly is critical, or it is out of sync and was synced or degraded.
abbrev pub InNeed : Bool → Bool → TaoNodePhase → Type 0
InNeed a c p = (c ≡ true) ⊎ ((a ≡ false) × ((p ≡ synced) ⊎ (p ≡ degraded)))

-- What an evaluation does to the phase when it makes no attempt: `a` and `c` are whether the node is in sync
-- and whether an anomaly is critical, `late` whether the time-out has passed since the node was stamped
-- last, `spent` whether the restart budget is used up, and `slot` whether the limiter gives a slot.
pub data Calm (a c late spent slot : Bool) (p q : TaoNodePhase) : Type 0 where
  start : p ≡ pending → q ≡ syncing → Calm a c late spent slot p q
  reach : a ≡ true → c ≡ false → q ≡ synced → Calm a c late spent slot p q
  lose : a ≡ false → p ≡ synced → slot ≡ false → q ≡ degraded → Calm a c late spent slot p q
  exhaust : InNeed a c p → spent ≡ true → q ≡ failed → Calm a c late spent slot p q
  expire :
      a ≡ false
      → c ≡ false
      → late ≡ true
      → p ≡ recovering
      → q ≡ failed
      → Calm a c late spent slot p q
  stay :
      (p ≡ synced → c ≡ true)
      → (p ≡ recovering → c ≡ false → late ≡ false)
      → p ≢ pending
      → (a && not c) ≡ false
      → (InNeed a c p → slot ≡ false)
      → q ≡ p
      → Calm a c late spent slot p q

is_pending_eq : (p : TaoNodePhase) → is_pending p ≡ true → p ≡ pending
is_pending_eq p h = ground arith

module _ {Q W : Type 0} (conds : ConditionOps) (kube : KubeClient W) (now : ℕ) where
  -- `time.Since(LastReconcileTime) > timeout`
  abbrev pub is_late : Run Q W → Bool
  is_late s = timed_out now s.node.status.last_reconcile_time (sync_timeout s)

  abbrev pub Evaluated : Bool → Bool → Run Q W → Run Q W → Type 0
  Evaluated a c s t =
      (Attempt conds kube now s t × InNeed a c (phase_of s))
      ⊎ (Idle s t
          × Calm a c (is_late s) (is_spent conds kube now s) (granted_to conds kube now s)
              (phase_of s) (phase_of t))

  -- The tail of the switch that both the loss of sync and a critical anomaly reach.
  recover-Evaluated :
      (a c : Bool) (s : Run Q W)
      → InNeed a c (phase_of s)
      → (phase_of s ≡ synced → c ≡ true)
      → (phase_of s ≡ recovering → c ≡ false → is_late s ≡ false)
      → phase_of s ≢ pending
      → (a && not c) ≡ false
      → Evaluated a c s (recover_in_budget conds kube now s).1
  recover-Evaluated a c s need guard soon started off = elim (recover-Budgeted conds kube now s) [
    | inl at ↦ inl (at, need)
    | inr (i, inl (spent, p)) ↦ inr (i, exhaust need spent p)
    | inr (i, inr (no_slot, p)) ↦ inr (i, stay guard soon started off (λ n. no_slot) p)
  ]

  lost-Evaluated :
      (h : ChainHealthResult) (c : Bool) (s : Run Q W)
      → phase_of s ≡ synced
      → Evaluated false c s (recover_in_budget conds kube now (lose_sync conds kube now h s)).1
  lost-Evaluated h c s p =
      let lost = lose_sync conds kube now h s in
      let (i, d, lim, key) = lose-Idle conds kube now h s in
      elim (recover-Budgeted conds kube now lost) [
        | inl at ↦ inl (attempt at, inr (refl, inl p))
        | inr (j, inl (spent, f)) ↦ inr (idle j, exhaust (inr (refl, inl p)) (still_spent spent) f)
        | inr (j, inr (no_slot, k)) ↦ inr (idle j, lose refl p (no_slot_either no_slot) (k ∙ d))
      ]
    where
      t : Run Q W
      t = (recover_in_budget conds kube now (lose_sync conds kube now h s)).1

      fixed : Fixed (lose_sync conds kube now h s) t → Fixed s t
      fixed f =
          let i = (lose-Idle conds kube now h s).0.fixed in
          record {
            spec = f.spec ∙ i.spec;
            last_reconcile_time = f.last_reconcile_time ∙ i.last_reconcile_time;
          }

      idle : Idle (lose_sync conds kube now h s) t → Idle s t
      idle j =
          let i = (lose-Idle conds kube now h s).0 in
          record {
            fixed = fixed j.fixed;
            restart_count = j.restart_count ∙ i.restart_count;
            world = j.world ∙ i.world;
          }

      still_spent :
          is_spent conds kube now (lose_sync conds kube now h s) ≡ true
          → is_spent conds kube now s ≡ true
      still_spent e = unfold lose_sync in e

      no_slot_either :
          granted_to conds kube now (lose_sync conds kube now h s) ≡ false
          → granted_to conds kube now s ≡ false
      no_slot_either e = unfold lose_sync in e

      attempt : Attempt conds kube now (lose_sync conds kube now h s) t → Attempt conds kube now s t
      attempt at =
          unfold lose_sync in
          record {
            fixed = fixed at.fixed;
            granted = at.granted;
            in_budget = at.in_budget;
            counted = at.counted;
            on_the_way = at.on_the_way;
          }

  await-Evaluated :
      (s : Run Q W)
      → phase_of s ≡ recovering
      → Evaluated false false s (await_recovery conds kube now s).1
  await-Evaluated s r =
      let (i, p) = await-Idle conds kube now s in
      inr (
        i,
        elim (Bool-cases (timed_out now s.node.status.last_reconcile_time (sync_timeout s))) [
          | inl late ↦ expire refl refl late r (rw late at p)
          | inr soon ↦
              stay (λ e. absurd (cc)) (λ e n. soon) (λ e. absurd (cc)) refl (ground (arith, r))
                (rw soon at p)
        ],
      )

  critical-Evaluated :
      (h : ChainHealthResult) (a : Bool) (s : Run Q W)
      → is_pending (phase_of s) ≡ false
      → Evaluated a true s (switch_phase conds kube now h a true s).1
  unfolding switch_phase
  critical-Evaluated h true s p = elim (Bool-cases (is_degraded (phase_of s))) [
    | inl d ↦
        rw (p, d)
          (recover-Evaluated true true s (inl refl) (λ e. refl) (λ e n. absurd (cc)) (ground arith)
            refl)
    | inr n ↦
        rw (p, n)
          (recover-Evaluated true true s (inl refl) (λ e. refl) (λ e n. absurd (cc)) (ground arith)
            refl)
  ]
  critical-Evaluated h false s p = elim (Bool-cases (is_synced_phase (phase_of s))) [
    | inl y ↦ rw (p, y) (lost-Evaluated h true s (ground arith))
    | inr n ↦ elim (Bool-cases (is_degraded (phase_of s))) [
      | inl d ↦
          rw (p, n, d)
            (recover-Evaluated false true s (inl refl) (λ e. refl) (λ e n. absurd (cc))
              (ground arith) refl)
      | inr m ↦
          rw (p, n, m)
            (recover-Evaluated false true s (inl refl) (λ e. refl) (λ e n. absurd (cc))
              (ground arith) refl)
    ]
  ]

  quiet-Evaluated :
      (h : ChainHealthResult) (a : Bool) (s : Run Q W)
      → is_pending (phase_of s) ≡ false
      → Evaluated a false s (switch_phase conds kube now h a false s).1
  unfolding switch_phase
  quiet-Evaluated h true s p =
      let (i, q) = in_sync-Idle conds kube now h s in rw p (inr (i, reach refl refl q))
  quiet-Evaluated h false s p = elim (Bool-cases (is_synced_phase (phase_of s))) [
    | inl y ↦ rw (p, y) (lost-Evaluated h false s (ground arith))
    | inr n ↦ elim (Bool-cases (is_degraded (phase_of s))) [
      | inl d ↦
          rw (p, n, d)
            (recover-Evaluated false false s (inr (refl, inr (ground arith))) (ground arith)
              (ground arith) (ground arith) refl)
      | inr m ↦ elim (Bool-cases (is_recovering (phase_of s))) [
        | inl r ↦ rw (p, n, m, r) (await-Evaluated s (ground arith))
        | inr o ↦
            let (i, q) = report-Idle conds kube now h s in
            rw (p, n, m, o)
              (inr (i, stay (ground arith) (ground arith) (ground arith) refl (ground arith) q))
      ]
    ]
  ]

  switch-Evaluated :
      (h : ChainHealthResult) (a c : Bool) (s : Run Q W)
      → Evaluated a c s (switch_phase conds kube now h a c s).1
  unfolding switch_phase
  switch-Evaluated h a c s = elim (Bool-cases (is_pending (phase_of s))) [
    | inl p ↦
        let (i, q) = start-Idle conds kube now s in
        rw p (inr (i, start (is_pending_eq (phase_of s) p) q))
    | inr p ↦ rest c p
  ]
    where
      rest :
          (c : Bool)
          → is_pending (phase_of s) ≡ false
          → Evaluated a c s (switch_phase conds kube now h a c s).1
      rest true p = critical-Evaluated h a s p
      rest false p = quiet-Evaluated h a s p

  -- Every evaluation either attempts a recovery, of a node in need, in which the limiter granted a
  -- slot and the restart budget was not used up, and counts it; or it changes neither the cluster nor the
  -- count of restarts. In that case the phase goes from pending to syncing, to synced if the node is in
  -- sync and no anomaly is critical, from synced to degraded if it is out of sync and the limiter refuses
  -- a slot, to failed if it is in need and the budget is used up, or if it is recovering, out of sync without
  -- a critical anomaly, and the time-out has passed since the last stamp; or it stays. It never stays pending,
  -- it stays synced only while an anomaly is critical, recovering without a critical anomaly only while the
  -- time-out has not passed, and a node in need stays in its phase only if the limiter refuses a slot.
  pub evaluate-Evaluated :
      (h : ChainHealthResult) (anomalies : List AnomalyScore) (s : Run Q W)
      → Evaluated
          (is_synced h (policy_of s))
          (has_critical_anomaly anomalies)
          s
          (evaluate_sync_state conds kube now h anomalies s).1
  unfolding evaluate_sync_state
  evaluate-Evaluated h anomalies s = carry (
      switch-Evaluated h (is_synced h (policy_of s)) (has_critical_anomaly anomalies)
        (export_gauges conds kube now h anomalies s))
    where
      t : Run Q W
      t =
          (switch_phase conds kube now h (is_synced h (policy_of s))
            (has_critical_anomaly anomalies) (export_gauges conds kube now h anomalies s)).1

      carry :
          Evaluated
            (is_synced h (policy_of s))
            (has_critical_anomaly anomalies)
            (export_gauges conds kube now h anomalies s)
            t
          → Evaluated (is_synced h (policy_of s)) (has_critical_anomaly anomalies) s t
      carry (inl (at, need)) = inl (
        record {
          fixed = record {
            spec = at.fixed.spec;
            last_reconcile_time = at.fixed.last_reconcile_time;
          };
          granted = at.granted;
          in_budget = at.in_budget;
          counted = at.counted;
          on_the_way = at.on_the_way;
        },
        need,
      )
      carry (inr (i, calm)) = inr (
        record {
          fixed = record { spec = i.fixed.spec; last_reconcile_time = i.fixed.last_reconcile_time };
          restart_count = i.restart_count;
          world = i.world;
        },
        calm,
      )
