-- ===== src/Controller/Storage/Bounds.antt =====
-- The growth of a volume by internal/controller/storage_manager.go stays within its bounds.
use tao_node_guardian.Base.{
  ℕ, ◌+◌, ◌*◌, ◌/◌, ◌≤◌, ◌<◌, ◌≡◌, ◌⊎◌, inl, inr, refl, Bool-cases, arith, if◌then◌else◌, false,
  ltb, subst,
}
use tao_node_guardian.Base.Int.{pos, ◌+ℤ◌, ◌*ℤ◌, leb_ℤ, quot, wrap64, wrap64_in_range}
use tao_node_guardian.Api.Spec.{AutoExpandSpec}
use tao_node_guardian.Api.Quantities.{QuantityOps}
use tao_node_guardian.Controller.State.{Run}
use tao_node_guardian.Controller.Storage.{grown, Pvc, PvcClient, resize, expanded}

mul_pos : (a b : ℕ) → pos a *ℤ pos b ≡ pos (a * b)
unfolding ◌*ℤ◌
mul_pos a b = ground arith

add_pos : (a b : ℕ) → pos a +ℤ pos b ≡ pos (a + b)
unfolding ◌+ℤ◌
add_pos a b = ground arith

-- Without an overflow, the new size in thousandths.
abbrev pub grown_ℕ : ℕ → ℕ → ℕ → ℕ
grown_ℕ c p m = if ltb m (c + c * p / 100) then m else c + c * p / 100

grown-ℕ :
    (c p m : ℕ)
    → c * p ≤ 0x7fff_ffff_ffff_ffff
    → c + c * p / 100 ≤ 0x7fff_ffff_ffff_ffff
    → grown (pos c) (pos p) (pos m) ≡ pos (grown_ℕ c p m)
unfolding grown quot
grown-ℕ c p m small fits =
    let kept : wrap64 (pos (c * p)) ≡ pos (c * p) =
      wrap64_in_range (pos (c * p)) (omega arith, omega arith) in
    let kept' : wrap64 (pos (c + c * p / 100)) ≡ pos (c + c * p / 100) =
      wrap64_in_range (pos (c + c * p / 100)) (omega arith, omega arith) in
    rw (mul_pos c p, kept, add_pos c (c * p / 100), kept') ground arith

-- The smaller of the two: the largest size, and the size grown by the percentage.
abbrev pub Smaller : ℕ → ℕ → ℕ → Type 0
Smaller size a b = ((size ≡ a) ⊎ (size ≡ b)) × (size ≤ a) × (size ≤ b)

grown_ℕ_bounds :
    (c p m : ℕ)
    → c < m
    → 100 ≤ c * p
    → (c < grown_ℕ c p m) × Smaller (grown_ℕ c p m) m (c + c * p / 100)
grown_ℕ_bounds c p m below some_growth = elim (Bool-cases (ltb m (c + c * p / 100))) [
  | inl large ↦ rw large (omega arith, (inl refl, omega arith, ground arith))
  | inr small ↦ rw small (omega arith, (inr refl, ground arith, omega arith))
]

module _ {Q W : Type 0} (ops : QuantityOps Q) (pvcs : PvcClient Q W) where
  -- The one call that changes the cluster updates the claim's size from `c` to more: to the smaller of `m`
  -- and `c` grown by `p` percent, in thousandths.
  abbrev pub GrowsWithin : ℕ → ℕ → ℕ → AutoExpandSpec Q → Pvc Q → Run Q W → Type 0
  GrowsWithin c p m ae pvc s =
      (size : ℕ) × ((resize ops pvcs ae pvc s).1.world
        ≡ (pvcs.update_pvc (record pvc { storage_request = ops.from_milli (pos size) }) s.world).1)
      × (c < size)
      × Smaller size m (c + c * p / 100)

  resize_world :
      (ae : AutoExpandSpec Q) (pvc : Pvc Q) (s : Run Q W)
      → leb_ℤ (ops.milli_value ae.max_size) (ops.milli_value pvc.storage_request) ≡ false
      → (resize ops pvcs ae pvc s).1.world
        ≡ (pvcs.update_pvc
            (record pvc {
              storage_request = ops.from_milli (
                  grown
                    (ops.milli_value pvc.storage_request)
                    ae.increment_percent
                    (ops.milli_value ae.max_size));
            })
            s.world).1
  unfolding resize expanded
  resize_world ae pvc s room = ground arith

  -- A claim of `c` thousandths that is smaller than the largest size `m`, where growing it by `p` percent
  -- adds at least one thousandth and overflows no int64, is updated to a size that is larger than before:
  -- the smaller of the largest size and the size grown by the percentage.
  pub resize-GrowsWithin :
      (ae : AutoExpandSpec Q) (pvc : Pvc Q) (s : Run Q W) (c p m : ℕ)
      → ops.milli_value pvc.storage_request ≡ pos c
      → ae.increment_percent ≡ pos p
      → ops.milli_value ae.max_size ≡ pos m
      → c * p ≤ 0x7fff_ffff_ffff_ffff
      → c + c * p / 100 ≤ 0x7fff_ffff_ffff_ffff
      → c < m
      → 100 ≤ c * p
      → GrowsWithin c p m ae pvc s
  resize-GrowsWithin ae pvc s c p m cur pct most small fits below some_growth =
      let world = resize_world ae pvc s (rw (cur, most) ground arith) in
      let size : grown (ops.milli_value pvc.storage_request) ae.increment_percent
            (ops.milli_value ae.max_size)
          ≡ pos (grown_ℕ c p m) =
        rw (cur, pct, most) (grown-ℕ c p m small fits) in
      let (larger, smaller) = grown_ℕ_bounds c p m below some_growth in
      (
        grown_ℕ c p m,
        subst
            (λ z.
              (resize ops pvcs ae pvc s).1.world
              ≡ (pvcs.update_pvc (record pvc { storage_request = ops.from_milli z }) s.world).1)
            size world,
        larger,
        smaller,
      )
