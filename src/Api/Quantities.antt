-- ===== src/Api/Quantities.antt =====
-- What the code uses of `resource.Quantity` of k8s.io/apimachinery, which is not part of the
-- repository: an interface over the type of quantities.
use tao_node_guardian.Base.{◌≡◌, Bool, false, String}
use tao_node_guardian.Base.Int.{ℤ}

-- `value` and `milli_value` are `Value()` and `MilliValue()`, `from_milli` is `NewMilliQuantity`, and
-- `less a b` is `a.Cmp(b) < 0`, and `to_text` is `String()`.
pub record QuantityOps (Q : Type 0) : Type 0 where
  pub value : Q → ℤ
  pub milli_value : Q → ℤ
  pub from_milli : ℤ → Q
  pub less : Q → Q → Bool
  pub to_text : Q → String

-- The order that `Cmp` decides is total: to be at least is reflexive and transitive.
pub record QuantityOrder {Q : Type 0} (ops : QuantityOps Q) : Type 0 where
  pub less_irrefl : (a : Q) → ops.less a a ≡ false
  pub not_less_trans :
      (a b c : Q) → ops.less a b ≡ false → ops.less b c ≡ false → ops.less a c ≡ false
