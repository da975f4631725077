-- ===== src/Base/Int.antt =====
-- Signed integers over the native numbers, with Go's wrap-around at 32 and 64 bits.
use Prim.Native.Nat.{ℕ, suc, ◌+◌, ◌-◌, ◌*◌, ◌/◌, ◌%◌, ◌≤◌, ◌<◌}
use mathlib.Core.Path.{◌≡◌}
use mathlib.Core.Bool.{Bool}
use native.Mathlib.Omega.{arith}
use tao_node_guardian.Base.Tests.{ltb, leb, ◌==◌, if◌then◌else◌}

-- `negsuc n` is -(n + 1).
pub data ℤ : Type 0 where
  pos : ℕ → ℤ
  negsuc : ℕ → ℤ

abbrev pub pos_part : ℤ → ℕ
pos_part (pos n) = n
pos_part (negsuc n) = 0

abbrev pub neg_part : ℤ → ℕ
neg_part (pos n) = 0
neg_part (negsuc n) = suc n

-- a - b, as an integer.
abbrev pub sub_ℕ : ℕ → ℕ → ℤ
sub_ℕ a b = if leb b a then pos (a - b) else negsuc (b - a - 1)

infixl 65 ◌+ℤ◌ ◌-ℤ◌
infixl 70 ◌*ℤ◌
infix 50 ◌≤ℤ◌ ◌<ℤ◌ ◌==ℤ◌
unfoldable pub ◌+ℤ◌ : ℤ → ℤ → ℤ
a +ℤ b = sub_ℕ (pos_part a + pos_part b) (neg_part a + neg_part b)

unfoldable pub ◌-ℤ◌ : ℤ → ℤ → ℤ
a -ℤ b = sub_ℕ (pos_part a + neg_part b) (neg_part a + pos_part b)

unfoldable pub ◌*ℤ◌ : ℤ → ℤ → ℤ
a *ℤ b =
    sub_ℕ (pos_part a * pos_part b + neg_part a * neg_part b)
      (pos_part a * neg_part b + neg_part a * pos_part b)

-- Go's integer division by a positive constant truncates towards zero.
unfoldable pub quot : ℤ → ℕ → ℤ
quot (pos n) d = pos (n / d)
quot (negsuc n) d = sub_ℕ 0 (suc n / d)

abbrev pub ◌≤ℤ◌ : ℤ → ℤ → Type 0
a ≤ℤ b = pos_part a + neg_part b ≤ pos_part b + neg_part a

abbrev pub ◌<ℤ◌ : ℤ → ℤ → Type 0
a <ℤ b = pos_part a + neg_part b < pos_part b + neg_part a

abbrev pub ltb_ℤ : ℤ → ℤ → Bool
ltb_ℤ a b = ltb (pos_part a + neg_part b) (pos_part b + neg_part a)

abbrev pub leb_ℤ : ℤ → ℤ → Bool
leb_ℤ a b = leb (pos_part a + neg_part b) (pos_part b + neg_part a)

abbrev pub ◌==ℤ◌ : ℤ → ℤ → Bool
a ==ℤ b = (pos_part a + neg_part b) == (pos_part b + neg_part a)

-- The residue of an integer modulo a positive number, and the signed value that it stands for in
-- two's complement: `half` is 2 ^ (w - 1) and `whole` is 2 ^ w.
abbrev pub residue : ℕ → ℤ → ℕ
residue whole (pos n) = n % whole
residue whole (negsuc n) = whole - 1 - n % whole

abbrev signed : ℕ → ℕ → ℕ → ℤ
signed half whole u = if ltb u half then pos u else negsuc (whole - 1 - u)

unfoldable pub wrap32 : ℤ → ℤ
wrap32 z = signed 0x8000_0000 0x1_0000_0000 (residue 0x1_0000_0000 z)

unfoldable pub wrap64 : ℤ → ℤ
wrap64 z = signed 0x8000_0000_0000_0000 0x1_0000_0000_0000_0000 (residue 0x1_0000_0000_0000_0000 z)

abbrev pub InInt32 : ℤ → Type 0
InInt32 z = (negsuc 0x7fff_ffff ≤ℤ z) × (z ≤ℤ pos 0x7fff_ffff)

abbrev pub InInt64 : ℤ → Type 0
InInt64 z = (negsuc 0x7fff_ffff_ffff_ffff ≤ℤ z) × (z ≤ℤ pos 0x7fff_ffff_ffff_ffff)

-- A value in range is kept.
pub wrap32_in_range : (z : ℤ) → InInt32 z → wrap32 z ≡ z
unfolding wrap32
wrap32_in_range (pos n) h = ground arith
wrap32_in_range (negsuc n) h = ground arith

pub wrap64_in_range : (z : ℤ) → InInt64 z → wrap64 z ≡ z
unfolding wrap64
wrap64_in_range (pos n) h = ground arith
wrap64_in_range (negsuc n) h = ground arith

-- One lemma for each operation, so that `omega` reads them shut.
pub +ℤ_parts :
    (a b : ℤ)
    → pos_part (a +ℤ b) + neg_part a + neg_part b ≡ neg_part (a +ℤ b) + pos_part a + pos_part b
unfolding ◌+ℤ◌
+ℤ_parts a b = ground arith

pub -ℤ_parts :
    (a b : ℤ)
    → pos_part (a -ℤ b) + neg_part a + pos_part b ≡ neg_part (a -ℤ b) + pos_part a + neg_part b
unfolding ◌-ℤ◌
-ℤ_parts a b = ground arith

pub eq_of_parts : (a b : ℤ) → pos_part a + neg_part b ≡ pos_part b + neg_part a → a ≡ b
eq_of_parts a b h = ground arith
