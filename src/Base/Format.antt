-- ===== src/Base/Format.antt =====
-- Formatted texts. A call of `fmt.Sprintf` is kept as its format and its arguments, so that what a
-- message says can be compared without rendering it.
use Prim.Native.Nat.{ℕ}
use Prim.Native.String.{String}
use mathlib.Core.Bool.{Bool}
use mathlib.Core.List.{List, []}
use tao_node_guardian.Base.Int.{ℤ}
use tao_node_guardian.Base.Errors.{Error}

-- `ratio a b` is the float `float64(a) / float64(b) * 100`; `score` is a float32 in units of 2^-149;
-- `error_text` is what `err.Error()` gives, and `stamp` a time, of
-- which `Format` shows the seconds; `bytes` is a byte slice in hexadecimal digits.
pub data Arg : Type 0 where
  str : String → Arg
  int : ℤ → Arg
  nat : ℕ → Arg
  bool : Bool → Arg
  ratio : ℤ → ℤ → Arg
  score : ℕ → Arg
  error_text : Error → Arg
  stamp : ℕ → Arg
  bytes : List ℕ → Arg

pub record Formatted : Type 0 where
  pub format : String
  pub args : List Arg

abbrev pub sprintf : String → List Arg → Formatted
sprintf f xs = record { format = f; args = xs }

-- A constant text.
abbrev pub text : String → Formatted
text s = sprintf s []
