-- ===== src/Controller/RateLimiter/Cooldown.antt =====
-- The cooldown of a node: how far apart the recoveries of one node are.
use tao_node_guardian.Base.{
  ℕ, ◌+◌, ◌≤◌, ◌≡◌, inl, inr, subst, String, List, [], ◌∷◌, arith, Option, none, some, Bool, true,
  false, if◌then◌else◌, str_eq, eq_iff, Bool-cases,
}
use tao_node_guardian.Base.Dict.{lookup, lookup-insert}
use tao_node_guardian.Controller.RateLimiter.{
  RecoveryRateLimiter, new_recovery_rate_limiter, try_acquire, release, Call, acquires, releases,
}

-- The times at which a history lets this node recover, in order.
pub grants : String → List Call → RecoveryRateLimiter → List ℕ
grants k [] rl = []
grants k (acquires now j ∷ cs) rl =
    let rest = grants k cs (try_acquire now j rl).1 in
    if str_eq j k then (if (try_acquire now j rl).0 then now ∷ rest else rest) else rest
grants k (releases j ∷ cs) rl = grants k cs (release j rl)

-- Each time is at least `gap` after the one before it, `last` being the one before the first.
abbrev pub SpacedFrom : ℕ → Option ℕ → List ℕ → Type 0
SpacedFrom gap last [] = Unit {0}
SpacedFrom gap none (t ∷ ts) = SpacedFrom gap (some t) ts
SpacedFrom gap (some l) (t ∷ ts) = (l + gap ≤ t) × SpacedFrom gap (some t) ts

abbrev last_of : String → RecoveryRateLimiter → Option ℕ
last_of k rl = lookup k rl.last_recovery_by_node

-- A granted call passed the node's cooldown, and becomes its last recovery.
granted :
    (now : ℕ) (k : String) (rl : RecoveryRateLimiter)
    → (try_acquire now k rl).0 ≡ true
    → SpacedFrom rl.cooldown_per_node (last_of k rl) (now ∷ [])
      × (last_of k (try_acquire now k rl).1 ≡ some now)
unfolding try_acquire
granted now k rl h = ground (arith, lookup-insert k k now rl.last_recovery_by_node, eq_iff k k)

-- Any other call leaves the node's last recovery alone.
refused :
    (now : ℕ) (k : String) (rl : RecoveryRateLimiter)
    → (try_acquire now k rl).0 ≡ false
    → last_of k (try_acquire now k rl).1 ≡ last_of k rl
unfolding try_acquire
refused now k rl h = ground arith

elsewhere :
    (now : ℕ) (j k : String) (rl : RecoveryRateLimiter)
    → str_eq j k ≡ false
    → last_of k (try_acquire now j rl).1 ≡ last_of k rl
unfolding try_acquire
elsewhere now j k rl h = ground (arith, lookup-insert j k now rl.last_recovery_by_node)

cooldown_kept :
    (now : ℕ) (j : String) (rl : RecoveryRateLimiter)
    → (try_acquire now j rl).1.cooldown_per_node ≡ rl.cooldown_per_node
unfolding try_acquire
cooldown_kept now j rl = ground arith

SpacedFrom-cons :
    (gap t : ℕ) (last : Option ℕ) (ts : List ℕ)
    → SpacedFrom gap last (t ∷ [])
    → SpacedFrom gap (some t) ts
    → SpacedFrom gap last (t ∷ ts)
SpacedFrom-cons gap t none ts h r = r
SpacedFrom-cons gap t (some l) ts h r = (h.0, r)

abbrev noted : Bool → Bool → ℕ → List ℕ → List ℕ
noted same ok now rest = if same then (if ok then now ∷ rest else rest) else rest

acquire_spaced :
    (now : ℕ) (j k : String) (rl : RecoveryRateLimiter) (ts : List ℕ)
    → SpacedFrom rl.cooldown_per_node (last_of k (try_acquire now j rl).1) ts
    → SpacedFrom rl.cooldown_per_node
        (last_of k rl)
        (noted (str_eq j k) (try_acquire now j rl).0 now ts)
acquire_spaced now j k rl ts h = elim (Bool-cases (str_eq j k)) [
  | inr other ↦
      rw other (subst (λ o. SpacedFrom rl.cooldown_per_node o ts) (elsewhere now j k rl other) h)
  | inl same ↦ rw same (own ((eq_iff j k).0 same))
]
  where
    own :
        j ≡ k
        → SpacedFrom rl.cooldown_per_node
            (last_of k rl)
            (noted true (try_acquire now j rl).0 now ts)
    own e = elim (Bool-cases (try_acquire now j rl).0) [
      | inr no_slot ↦ rw no_slot (
          subst (λ o. SpacedFrom rl.cooldown_per_node o ts)
            (subst (λ i. last_of i (try_acquire now j rl).1 ≡ last_of i rl) e
              (refused now j rl no_slot))
            h)
      | inl slot ↦
          let (fits, noted_at) =
            subst
              (λ i.
                SpacedFrom rl.cooldown_per_node (last_of i rl) (now ∷ [])
                × (last_of i (try_acquire now j rl).1 ≡ some now))
              e (granted now j rl slot) in
          rw slot (
            SpacedFrom-cons rl.cooldown_per_node now (last_of k rl) ts fits
              (subst (λ o. SpacedFrom rl.cooldown_per_node o ts) noted_at h))
    ]

grants_from :
    (k : String) (cs : List Call) (rl : RecoveryRateLimiter)
    → SpacedFrom rl.cooldown_per_node (last_of k rl) (grants k cs rl)
unfolding grants release
grants_from k [] rl = tt
grants_from k (releases j ∷ cs) rl = grants_from k cs (release j rl)
grants_from k (acquires now j ∷ cs) rl = acquire_spaced now j k rl _ (
    subst (λ g. SpacedFrom g (last_of k after) (grants k cs after)) (cooldown_kept now j rl)
      (grants_from k cs after))
  where
    after : RecoveryRateLimiter
    after = (try_acquire now j rl).1

-- In every history of calls on a new limiter, by any nodes and with any times, each recovery that
-- is granted to a node comes at least the cooldown after the node's previous one. Releasing a slot
-- early does not shorten this.
pub grants-SpacedFrom :
    (most cooldown : ℕ) (k : String) (cs : List Call)
    → SpacedFrom cooldown none (grants k cs (new_recovery_rate_limiter most cooldown))
unfolding new_recovery_rate_limiter lookup
grants-SpacedFrom most cooldown k cs = grants_from k cs (new_recovery_rate_limiter most cooldown)
