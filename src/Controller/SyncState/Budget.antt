-- ===== src/Controller/SyncState/Budget.antt =====
-- The restart budget of a node over a sequence of evaluations.
use tao_node_guardian.Base.{ℕ, ◌≡◌, inl, inr, refl, sym, ap, ◌∙◌, subst, List, [], ◌∷◌, arith}
use tao_node_guardian.Base.Int.{
  ℤ, pos, ◌+ℤ◌, ◌≤ℤ◌, ◌<ℤ◌, wrap32, InInt32, wrap32_in_range, +ℤ_parts,
}
use tao_node_guardian.Base.Errors.{ok, err}
use tao_node_guardian.Controller.Conditions.{ConditionOps}
use tao_node_guardian.Controller.State.{KubeClient, Run}
use tao_node_guardian.Controller.Health.{Outcome}
use tao_node_guardian.Controller.SyncState.{policy_of, evaluate_sync_state}
use tao_node_guardian.Controller.SyncState.Steps.{evaluate-Evaluated}
use tao_node_guardian.Controller.SyncState.History.{
  Input, Round, evaluates, stops, store_outcome, reconcile_sync, stop_early, reconcile_round,
  reconcile_all,
}

-- The count is within the budget, and both are int32.
pub record InBudget {Q W : Type 0} (limit : ℤ) (s : Run Q W) : Type 0 where
  pub limit_kept : (policy_of s).max_restart_attempts ≡ limit
  pub within : s.node.status.restart_count ≤ℤ limit
  pub in_range : InInt32 s.node.status.restart_count

count_up :
    (count limit : ℤ)
    → count <ℤ limit
    → limit ≤ℤ pos 0x7fff_ffff
    → InInt32 count
    → (wrap32 (count +ℤ pos 1) ≤ℤ limit)
      × InInt32 (wrap32 (count +ℤ pos 1))
      × (wrap32 (count +ℤ pos 1) ≡ count +ℤ pos 1)
count_up count limit h l r =
    let fits : InInt32 (count +ℤ pos 1) =
      (omega (arith, +ℤ_parts count (pos 1)), omega (arith, +ℤ_parts count (pos 1))) in
    let same = wrap32_in_range (count +ℤ pos 1) fits in
    rw same (omega (arith, +ℤ_parts count (pos 1)), fits, refl)

module _ {Q W : Type 0} (conds : ConditionOps) (kube : KubeClient W) (limit : ℤ)
    (range : limit ≤ℤ pos 0x7fff_ffff) where
  -- The budget is kept and the count has not gone down, as it does when it wraps.
  abbrev Counts : Run Q W → Run Q W → Type 0
  Counts s t = InBudget limit t × (s.node.status.restart_count ≤ℤ t.node.status.restart_count)

  evaluate-Counts :
      (i : Input) (s : Run Q W)
      → InBudget limit s
      → Counts s (evaluate_sync_state conds kube i.now i.health i.anomalies s).1
  evaluate-Counts i s v = elim (evaluate-Evaluated conds kube i.now i.health i.anomalies s) [
    | inl (at, need) ↦
        let (w, r, e) =
          count_up s.node.status.restart_count limit
            (subst (λ l. s.node.status.restart_count <ℤ l) v.limit_kept at.in_budget) range
            v.in_range in
        (
          record {
            limit_kept =
                ap (λ sp. sp.sync_policy.max_restart_attempts) at.fixed.spec ∙ v.limit_kept;
            within = subst (λ c. c ≤ℤ limit) (sym at.counted) w;
            in_range = subst InInt32 (sym at.counted) r;
          },
          subst (λ c. s.node.status.restart_count ≤ℤ c) (sym (at.counted ∙ e))
              (omega (arith, +ℤ_parts s.node.status.restart_count (pos 1))),
        )
    | inr (j, calm) ↦ (
      record {
        limit_kept = ap (λ sp. sp.sync_policy.max_restart_attempts) j.fixed.spec ∙ v.limit_kept;
        within = subst (λ c. c ≤ℤ limit) (sym j.restart_count) v.within;
        in_range = subst InInt32 (sym j.restart_count) v.in_range;
      },
      subst (λ c. s.node.status.restart_count ≤ℤ c) (sym j.restart_count) (omega arith),
    )
  ]

  store-Counts :
      (now : ℕ) (s : Run Q W) (o : Outcome × Run Q W)
      → InBudget limit s
      → Counts s o.1
      → Counts s (store_outcome conds kube now s.node o)
  unfolding store_outcome
  store-Counts now s (ok _, t) v (u, le) =
      (record { limit_kept = u.limit_kept; within = u.within; in_range = u.in_range }, le)
  store-Counts now s (err _, t) v u =
      (record { limit_kept = v.limit_kept; within = v.within; in_range = v.in_range }, omega arith)

  round-Counts :
      (r : Round) (s : Run Q W) → InBudget limit s → Counts s (reconcile_round conds kube r s)
  unfolding reconcile_round reconcile_sync stop_early
  round-Counts (evaluates i) s v =
      store-Counts i.now s (evaluate_sync_state conds kube i.now i.health i.anomalies s) v
        (evaluate-Counts i s v)
  round-Counts (stops conditions hash) s v =
      (record { limit_kept = v.limit_kept; within = v.within; in_range = v.in_range }, omega arith)

  -- Whatever the probes, the anomalies, the times and the cluster do, and wherever a reconcile stops, a
  -- node whose count of restarts is an int32 within its maximum stays within it, and the count never
  -- wraps: it does not go down.
  pub reconcile_all-InBudget :
      (rs : List Round) (s : Run Q W)
      → InBudget limit s
      → InBudget limit (reconcile_all conds kube rs s)
        × (s.node.status.restart_count ≤ℤ (reconcile_all conds kube rs s).node.status.restart_count)
  unfolding reconcile_all
  reconcile_all-InBudget [] s v = (v, omega arith)
  reconcile_all-InBudget (r ∷ rs) s v =
      let (one, up) = round-Counts r s v in
      let (all_kept, rest) = reconcile_all-InBudget rs (reconcile_round conds kube r s) one in
      (all_kept, omega arith)
