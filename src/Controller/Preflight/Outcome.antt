-- ===== src/Controller/Preflight/Outcome.antt =====
-- When `validateHotkeySecret` of internal/controller/taonode_controller.go sets the hash.
use tao_node_guardian.Base.{
  ℕ, String, List, [], ◌∷◌, take, Option, none, some, true, ◌≡◌, ◌⊎◌, inl, inr, refl, Bool-cases,
}
use tao_node_guardian.Base.Dict.{lookup}
use tao_node_guardian.Base.Errors.{Result, ok, err, is_not_found}
use tao_node_guardian.Base.Format.{bytes, sprintf, text}
use tao_node_guardian.Controller.Conditions.{ConditionOps}
use tao_node_guardian.Controller.Health.{is_err}
use tao_node_guardian.Controller.State.{Run, set_cond}
use tao_node_guardian.Controller.Preflight.{
  Secret, PreflightClient, needs_hotkey, hotkey_reference, clear_hash, hotkey_found, hotkey_lookup,
  hotkey_answer, hotkey_referenced, validate_hotkey_secret,
}

module _ {Q W : Type 0} (conds : ConditionOps) (client : PreflightClient W) (now : ℕ)
    (sha256 : List ℕ → List ℕ) where
  -- The check refused, and the status has no hash.
  pub record Refused (t : Result (Unit {0}) × Run Q W) : Type 0 where
    pub failed : is_err t.0 ≡ true
    pub cleared : t.1.node.status.hotkey_hash ≡ text ""

  -- The check found a key in the Secret that the node names, and the status has the first eight bytes of
  -- its hash.
  pub record Found (s : Run Q W) (t : Result (Unit {0}) × Run Q W) : Type 0 where
    pub name : String
    pub secret : Secret
    pub key : List ℕ
    pub referenced : hotkey_reference s.node.spec.validator ≡ some name
    pub answered : client.get_secret s.node.namespace_ name s.world ≡ ok secret
    pub held : lookup "hotkey" secret.data_ ≡ some key
    pub passed : t.0 ≡ ok tt
    pub hashed :
        t.1.node.status.hotkey_hash ≡ sprintf "sha256:%x" (bytes (take 8 (sha256 key)) ∷ [])

  lookup_outcome :
      (name : String) (secret : Secret) (k : Option (List ℕ)) (s : Run Q W)
      → hotkey_reference s.node.spec.validator ≡ some name
      → client.get_secret s.node.namespace_ name s.world ≡ ok secret
      → lookup "hotkey" secret.data_ ≡ k
      → let t = hotkey_lookup conds client now sha256 name k s in Refused t ⊎ Found s t
  unfolding hotkey_lookup hotkey_found clear_hash set_cond
  lookup_outcome name secret none s r a e = inl (record { failed = refl; cleared = refl })
  lookup_outcome name secret (some k) s r a e = inr (record {
    name = name;
    secret = secret;
    key = k;
    referenced = r;
    answered = a;
    held = e;
    passed = refl;
    hashed = refl;
  })

  answer_outcome :
      (name : String) (a : Result Secret) (s : Run Q W)
      → hotkey_reference s.node.spec.validator ≡ some name
      → client.get_secret s.node.namespace_ name s.world ≡ a
      → let t = hotkey_answer conds client now sha256 name a s in Refused t ⊎ Found s t
  unfolding hotkey_answer clear_hash set_cond
  answer_outcome name (ok secret) s r a = lookup_outcome name secret _ s r a refl
  answer_outcome name (err e) s r a = elim (Bool-cases (is_not_found e)) [
    | inl missing ↦ rw missing (inl (record { failed = refl; cleared = refl }))
    | inr other ↦ rw other (inl (record { failed = refl; cleared = refl }))
  ]

  reference_outcome :
      (name : Option String) (s : Run Q W)
      → hotkey_reference s.node.spec.validator ≡ name
      → let t = hotkey_referenced conds client now sha256 name s in Refused t ⊎ Found s t
  unfolding hotkey_referenced clear_hash
  reference_outcome none s r = inl (record { failed = refl; cleared = refl })
  reference_outcome (some name) s r = answer_outcome name _ s r refl

  -- For a role that needs a hotkey, the check either fails, and then the status has no hash, or it found
  -- a key in the Secret that the node names, and then it passes and the status has the first eight bytes
  -- of that key's hash.
  pub validate_hotkey_secret_outcome :
      (s : Run Q W)
      → needs_hotkey s.node.spec.role ≡ true
      → let t = validate_hotkey_secret conds client now sha256 s in Refused t ⊎ Found s t
  unfolding validate_hotkey_secret
  validate_hotkey_secret_outcome s needed =
      rw needed (reference_outcome (hotkey_reference s.node.spec.validator) s refl)
