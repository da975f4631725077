-- ===== src/Base/Errors.antt =====
-- Go's `error` values and the results of fallible calls.
use Prim.Native.String.{String}
use mathlib.Core.Path.{◌≡◌, refl}
use mathlib.Core.Bool.{Bool, true, false}

-- The reasons of a Kubernetes API error that the operator tells apart.
pub data ApiReason : Type 0 where
  not_found forbidden conflict other : ApiReason

-- `plain` is `fmt.Errorf` or `errors.New` with no cause, by its format; `wrap` is a format that
-- ends in `%w`.
pub data Error : Type 0 where
  api : ApiReason → Error
  plain : String → Error
  wrap : String → Error → Error

pub data Result {ℓ} (A : Type ℓ) : Type ℓ where
  ok : A → Result A
  err : Error → Result A

abbrev pub reason_is_not_found : ApiReason → Bool
reason_is_not_found not_found = true
reason_is_not_found _ = false

-- `apierrors.IsNotFound`, which looks through wrapped errors.
unfoldable pub is_not_found : Error → Bool
is_not_found (api r) = reason_is_not_found r
is_not_found (plain _) = false
is_not_found (wrap _ e) = is_not_found e

abbrev pub reason_is_forbidden : ApiReason → Bool
reason_is_forbidden forbidden = true
reason_is_forbidden _ = false

unfoldable pub is_forbidden : Error → Bool
is_forbidden (api r) = reason_is_forbidden r
is_forbidden (plain _) = false
is_forbidden (wrap _ e) = is_forbidden e

-- A call whose error ends the caller: `if err != nil { return err }`.
infixl 5 ◌>>=◌
abbrev pub ◌>>=◌ {ℓ κ} : {A : Type ℓ} {B : Type κ} → Result A → (A → Result B) → Result B
ok a >>= f = f a
err e >>= f = err e

-- The same with the error wrapped, `return fmt.Errorf("…: %w", err)`.
abbrev pub context {ℓ} : {A : Type ℓ} → String → Result A → Result A
context format (ok a) = ok a
context format (err e) = err (wrap format e)

-- What a chain that succeeded went through.
pub >>=-eq-ok {ℓ κ} :
    {A : Type ℓ} {B : Type κ} (m : Result A) (f : A → Result B) (b : B)
    → (m >>= f) ≡ ok b
    → (a : A) × (m ≡ ok a) × (f a ≡ ok b)
>>=-eq-ok (ok a) f b h = (a, refl, h)
>>=-eq-ok (err e) f b h = absurd (cc)

pub context-eq-ok {ℓ} :
    {A : Type ℓ} (format : String) (m : Result A) (a : A) → context format m ≡ ok a → m ≡ ok a
context-eq-ok format (ok b) a h = h
context-eq-ok format (err e) a h = absurd (cc)
