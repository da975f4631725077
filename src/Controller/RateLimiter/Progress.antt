-- ===== src/Controller/RateLimiter/Progress.antt =====
-- A recovery that is never released does not hold its slot for ever.
use tao_node_guardian.Base.{
  ℕ, ◌+◌, ◌≤◌, ◌<◌, ◌≡◌, inl, inr, sym, subst, String, List, [], ◌∷◌, All, arith, true, false, leb,
  Option-cases,
}
use tao_node_guardian.Base.Dict.{
  Dict, lookup, AllValues, insert-AllValues, erase-AllValues, retain-AllValues, lookup-AllValues,
  retain-none,
}
use tao_node_guardian.Controller.RateLimiter.Invariant.{run_config}
use tao_node_guardian.Controller.RateLimiter.{
  RecoveryRateLimiter, stale_after, new_recovery_rate_limiter, evict_stale, try_acquire, is_cooling,
  release, Call, acquires, releases, step, run,
}

abbrev pub Before : ℕ → Call → Type 0
Before latest (acquires now k) = now ≤ latest
Before latest (releases k) = Unit

abbrev Recorded : ℕ → RecoveryRateLimiter → Type 0
Recorded latest rl =
    AllValues (λ t. t ≤ latest) rl.active_recoveries
    × AllValues (λ t. t ≤ latest) rl.last_recovery_by_node

module _ (latest : ℕ) where
  try_acquire-Recorded :
      (now : ℕ) (k : String) (rl : RecoveryRateLimiter)
      → now ≤ latest
      → Recorded latest rl
      → Recorded latest (try_acquire now k rl).1
  unfolding try_acquire
  try_acquire-Recorded now k rl b h =
      let kept : AllValues (λ t. t ≤ latest) (evict_stale now rl).active_recoveries =
        retain-AllValues (λ t. t ≤ latest) (λ started. leb now (started + stale_after))
          rl.active_recoveries h.0 in
      ground (
        arith,
        kept,
        insert-AllValues (λ t. t ≤ latest) k now (evict_stale now rl).active_recoveries b kept,
        insert-AllValues (λ t. t ≤ latest) k now rl.last_recovery_by_node b h.1,
      )

  step-Recorded :
      (c : Call) (rl : RecoveryRateLimiter)
      → Before latest c
      → Recorded latest rl
      → Recorded latest (step c rl)
  unfolding step release
  step-Recorded (acquires now k) rl b h = try_acquire-Recorded now k rl b h
  step-Recorded (releases k) rl b h =
      (erase-AllValues (λ t. t ≤ latest) k rl.active_recoveries h.0, h.1)

  run-Recorded :
      (cs : List Call) (rl : RecoveryRateLimiter)
      → All (Before latest) cs
      → Recorded latest rl
      → Recorded latest (run cs rl)
  unfolding run
  run-Recorded [] rl b h = h
  run-Recorded (c ∷ cs) rl b h = run-Recorded cs (step c rl) b.1 (step-Recorded c rl b.0 h)

All-stale :
    (latest now : ℕ) (m : Dict ℕ)
    → latest + stale_after < now
    → AllValues (λ t. t ≤ latest) m
    → All (λ e. leb now (e.1 + stale_after) ≡ false) m
All-stale latest now [] q h = tt
All-stale latest now (e ∷ m) q h = (ground (arith, h.0), All-stale latest now m q h.1)

rested :
    (latest now cooldown : ℕ) (k : String) (m : Dict ℕ)
    → latest + cooldown ≤ now
    → AllValues (λ t. t ≤ latest) m
    → is_cooling now cooldown (lookup k m) ≡ false
rested latest now cooldown k m q h = elim (Option-cases (lookup k m)) [
  | inl e ↦ rw e
  | inr (t, e) ↦
      let b : t ≤ latest = lookup-AllValues (λ t. t ≤ latest) k m t h e in rw e (ground arith)
]

quiet_granted :
    (latest now : ℕ) (k : String) (rl : RecoveryRateLimiter)
    → Recorded latest rl
    → 0 < rl.max_concurrent
    → latest + stale_after < now
    → latest + rl.cooldown_per_node ≤ now
    → (try_acquire now k rl).0 ≡ true
unfolding try_acquire
quiet_granted latest now k rl h p s c = ground (
  arith,
  retain-none (λ started. leb now (started + stale_after)) rl.active_recoveries
      (All-stale latest now rl.active_recoveries s h.0),
  rested latest now rl.cooldown_per_node k rl.last_recovery_by_node c h.1,
)

-- A limiter with a positive cap does not lock up: whatever calls were made up to some time, released
-- or not, once more than five minutes and at least the cooldown have passed since then, every node
-- is granted a recovery.
pub try_acquire_after_quiet :
    (most cooldown latest now : ℕ) (k : String) (cs : List Call)
    → 0 < most
    → All (Before latest) cs
    → latest + stale_after < now
    → latest + cooldown ≤ now
    → (try_acquire now k (run cs (new_recovery_rate_limiter most cooldown))).0 ≡ true
unfolding new_recovery_rate_limiter
try_acquire_after_quiet most cooldown latest now k cs p b s c =
    let start = new_recovery_rate_limiter most cooldown in
    let (same_cap, same_cooldown) = run_config cs start in
    quiet_granted latest now k (run cs start) (run-Recorded latest cs start b (tt, tt))
      (subst (λ m. 0 < m) (sym same_cap) p) s (subst (λ d. latest + d ≤ now) (sym same_cooldown) c)
