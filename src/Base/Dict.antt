-- ===== src/Base/Dict.antt =====
-- Go maps with text keys, as association lists. No modelled code depends on the order in which Go
-- ranges over a map.
use tao_node_guardian.Base.Tests.{if◌then◌else◌, Bool-cases}
use tao_node_guardian.Base.Lists.{length, All}
use Prim.Native.Nat.{◌+◌, ◌≤◌}
use Prim.Native.String.{String}
use mathlib.Core.Path.{◌≡◌, refl, subst}
use mathlib.Core.Bool.{Bool, false}
use mathlib.Core.Option.{Option, none, some}
use mathlib.Core.Logic.{inl, inr}
use mathlib.Core.List.{List, [], ◌∷◌}
use text.Mathlib.Text.{◌==◌}
use text.Mathlib.TextEquality.{eq_iff}
use native.Mathlib.Omega.{arith}

abbrev pub Dict {ℓ} : Type ℓ → Type ℓ
Dict V = List (String × V)

some_inj {ℓ} : {V : Type ℓ} (v w : V) → some v ≡ some w → v ≡ w
some_inj v w e = cc

module _ {ℓ} {V : Type ℓ} where
  -- The value under a key, if the map has one.
  unfoldable pub lookup : String → Dict V → Option V
  lookup key [] = none
  lookup key (entry ∷ rest) = if entry.0 == key then some entry.1 else lookup key rest

  -- delete(m, k)
  unfoldable pub erase : String → Dict V → Dict V
  erase k [] = []
  erase k ((j, v) ∷ m) = let rest = erase k m in if j == k then rest else (j, v) ∷ rest

  -- m[k] = v
  unfoldable pub insert : String → V → Dict V → Dict V
  insert key new [] = (key, new) ∷ []
  insert key new (entry ∷ rest) =
      if entry.0 == key then (key, new) ∷ rest else entry ∷ insert key new rest

  -- A loop over the map that deletes the entries whose value fails the test.
  unfoldable pub retain : (V → Bool) → Dict V → Dict V
  retain p [] = []
  retain p ((j, v) ∷ m) = let rest = retain p m in if p v then (j, v) ∷ rest else rest

  -- Storing under one key changes no other.
  pub lookup-insert :
      (key asked : String) (new : V) (m : Dict V)
      → lookup asked (insert key new m) ≡ (if key == asked then some new else lookup asked m)
  unfolding lookup insert
  lookup-insert key asked new [] = ground arith
  lookup-insert key asked new (entry ∷ rest) = ground (
    lookup-insert key asked new rest,
    eq_iff entry.0 key,
    eq_iff key asked,
    eq_iff entry.0 asked,
    arith,
  )

  pub lookup-erase :
      (k j : String) (m : Dict V) → lookup j (erase k m) ≡ (if k == j then none else lookup j m)
  unfolding lookup erase
  lookup-erase k j [] = ground arith
  lookup-erase k j ((i, w) ∷ m) =
      ground (arith, eq_iff k j, eq_iff i k, eq_iff i j, lookup-erase k j m)

  pub length-insert-le : (k : String) (v : V) (m : Dict V) → length (insert k v m) ≤ length m + 1
  unfolding insert
  length-insert-le k v [] = omega arith
  length-insert-le k v ((j, w) ∷ m) = ground (arith, length-insert-le k v m)

  pub length-erase-le : (k : String) (m : Dict V) → length (erase k m) ≤ length m
  unfolding erase
  length-erase-le k [] = omega arith
  length-erase-le k ((j, w) ∷ m) = ground (arith, length-erase-le k m)

  pub length-retain-le : (p : V → Bool) (m : Dict V) → length (retain p m) ≤ length m
  unfolding retain
  length-retain-le p [] = omega arith
  length-retain-le p ((j, w) ∷ m) = ground (arith, length-retain-le p m)

  -- If every value fails the test, nothing is left.
  pub retain-none : (p : V → Bool) (m : Dict V) → All (λ e. p e.1 ≡ false) m → retain p m ≡ []
  unfolding retain
  retain-none p [] h = refl
  retain-none p ((j, w) ∷ m) h = ground (arith, retain-none p m h.1)

  -- A property of the values survives each operation, and holds of what is found.
  module _ {κ} (P : V → Type κ) where
    abbrev pub AllValues : Dict V → Type κ
    AllValues m = All (λ e. P e.1) m

    pub insert-AllValues :
        (k : String) (v : V) (m : Dict V) → P v → AllValues m → AllValues (insert k v m)
    unfolding insert
    insert-AllValues k v [] p h = (p, tt)
    insert-AllValues k v ((j, w) ∷ m) p h = ground (arith, insert-AllValues k v m p h.1)

    pub erase-AllValues : (k : String) (m : Dict V) → AllValues m → AllValues (erase k m)
    unfolding erase
    erase-AllValues k [] h = tt
    erase-AllValues k ((j, w) ∷ m) h = ground (arith, erase-AllValues k m h.1)

    pub retain-AllValues : (p : V → Bool) (m : Dict V) → AllValues m → AllValues (retain p m)
    unfolding retain
    retain-AllValues p [] h = tt
    retain-AllValues p ((j, w) ∷ m) h = ground (arith, retain-AllValues p m h.1)

    pub lookup-AllValues :
        (k : String) (m : Dict V) (v : V) → AllValues m → lookup k m ≡ some v → P v
    unfolding lookup
    lookup-AllValues k [] v h e = absurd (cc)
    lookup-AllValues k ((j, w) ∷ m) v h e = elim (Bool-cases (j == k)) [
      | inl hit ↦ subst P (some_inj w v (rw hit at e)) h.0
      | inr miss ↦ lookup-AllValues k m v h.1 (rw miss at e)
    ]
