-- ===== src/Examples/Secrets.antt =====
-- Secrets with hotkeys, under a hash that is the key itself.
use tao_node_guardian.Base.{ℕ, List, [], ◌∷◌, ◌≡◌, ◌⊎◌, refl, none}
use tao_node_guardian.Base.Dict.{lookup}
use tao_node_guardian.Base.Errors.{ok}
use tao_node_guardian.Api.Status.{pending}
use tao_node_guardian.Controller.Preflight.{Secret, PreflightClient, validate_hotkey_secret}
use tao_node_guardian.Controller.Preflight.Secrecy.{validate_hotkey_secret_alike}
use tao_node_guardian.Controller.Preflight.Outcome.{Refused, Found, validate_hotkey_secret_outcome}
use tao_node_guardian.Examples.Nodes.{conditions, run_in}

abbrev secret : List ℕ → Secret
secret key = record { data_ = ("hotkey", key) ∷ [] }

abbrev client : List ℕ → PreflightClient ℕ
client key = record { get_role = λ ns name w. ok tt; get_secret = λ ns name w. ok (secret key) }

abbrev hash : List ℕ → List ℕ
hash key = key

-- Two keys of nine bytes that differ in the last one.
abbrev key : ℕ → List ℕ
key last = 1 ∷ 2 ∷ 3 ∷ 4 ∷ 5 ∷ 6 ∷ 7 ∷ 8 ∷ last ∷ []

validate_hotkey_secret_alike_example :
    validate_hotkey_secret conditions (client (key 9)) 5 hash (run_in pending none)
    ≡ validate_hotkey_secret conditions (client (key 10)) 5 hash (run_in pending none)
unfolding lookup
validate_hotkey_secret_alike_example =
    validate_hotkey_secret_alike hash conditions (client (key 9)) (client (key 10)) 5
      (λ ns name w. (refl, refl)) (run_in pending none)

validate_hotkey_secret_outcome_example :
    let t = validate_hotkey_secret conditions (client (key 9)) 5 hash (run_in pending none) in
    Refused conditions (client (key 9)) 5 hash t
    ⊎ Found conditions (client (key 9)) 5 hash (run_in pending none) t
validate_hotkey_secret_outcome_example =
    validate_hotkey_secret_outcome conditions (client (key 9)) 5 hash (run_in pending none) refl
