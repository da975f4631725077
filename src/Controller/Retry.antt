-- ===== src/Controller/Retry.antt =====
-- `retry.RetryOnConflict` of k8s.io/client-go, by what it may do.
use tao_node_guardian.Base.{◌≡◌}
use tao_node_guardian.Base.Errors.{api, conflict, Result, err}

module _ {W : Type 0} where
  -- A retry ends with the answer of an attempt, or goes on after a conflict.
  pub data Attempts (f : W → Result (Unit {0}) × W) : W → Result (Unit {0}) × W → Type 0 where
    last : {w : W} → Attempts f w (f w)
    again :
        {w w' : W} {answer : Result (Unit {0}) × W}
        → f w ≡ (err (api conflict), w')
        → Attempts f w' answer
        → Attempts f w answer
