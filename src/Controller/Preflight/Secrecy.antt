-- ===== src/Controller/Preflight/Secrecy.antt =====
-- What `validateHotkeySecret` of internal/controller/taonode_controller.go lets out of a Secret.
use tao_node_guardian.Base.{
  ℕ, String, List, length, take, Option, none, some, ◌≡◌, refl, ap, if◌then◌else◌,
}
use tao_node_guardian.Base.Dict.{lookup}
use tao_node_guardian.Base.Errors.{Result, ok, err}
use tao_node_guardian.Controller.Conditions.{ConditionOps}
use tao_node_guardian.Controller.State.{Run}
use tao_node_guardian.Controller.Preflight.{
  Secret, PreflightClient, needs_hotkey, hotkey_reference, clear_hash, hotkey_found, hotkey_lookup,
  hotkey_answer, hotkey_referenced, validate_hotkey_secret,
}

module _ (sha256 : List ℕ → List ℕ) where
  -- Of the two keys nothing can be told apart but their content: both are missing, or they have the
  -- same size and the same first eight bytes of their hash.
  abbrev pub AlikeKeys : Option (List ℕ) → Option (List ℕ) → Type 0
  AlikeKeys none none = Unit {0}
  AlikeKeys (some k) (some l) = (length k ≡ length l) × (take 8 (sha256 k) ≡ take 8 (sha256 l))
  AlikeKeys _ _ = ⊥

  -- And of two answers: the same error, or Secrets with such keys, whatever else they hold.
  abbrev pub AlikeAnswers : Result Secret → Result Secret → Type 0
  AlikeAnswers (ok a) (ok b) = AlikeKeys (lookup "hotkey" a.data_) (lookup "hotkey" b.data_)
  AlikeAnswers (err e) (err f) = e ≡ f
  AlikeAnswers _ _ = ⊥

  module _ {Q W : Type 0} (conds : ConditionOps) (c d : PreflightClient W) (now : ℕ) where
    found_alike :
        (name : String) (k l : List ℕ) (s : Run Q W)
        → length k ≡ length l
        → take 8 (sha256 k) ≡ take 8 (sha256 l)
        → hotkey_found conds c now sha256 name k s ≡ hotkey_found conds d now sha256 name l s
    unfolding hotkey_found
    found_alike name k l s n h = rw (n, h) refl

    lookup_alike :
        (name : String) (k l : Option (List ℕ)) (s : Run Q W)
        → AlikeKeys k l
        → hotkey_lookup conds c now sha256 name k s ≡ hotkey_lookup conds d now sha256 name l s
    unfolding hotkey_lookup clear_hash
    lookup_alike name none none s h = refl
    lookup_alike name (some k) (some l) s h = found_alike name k l s h.0 h.1
    lookup_alike name none (some l) s h = absurd h
    lookup_alike name (some k) none s h = absurd h

    answer_alike :
        (name : String) (a b : Result Secret) (s : Run Q W)
        → AlikeAnswers a b
        → hotkey_answer conds c now sha256 name a s ≡ hotkey_answer conds d now sha256 name b s
    unfolding hotkey_answer clear_hash
    answer_alike name (ok a) (ok b) s h = lookup_alike name _ _ s h
    answer_alike name (err e) (err f) s h = rw h refl
    answer_alike name (ok a) (err f) s h = absurd h
    answer_alike name (err e) (ok b) s h = absurd h

    referenced_alike :
        (name : Option String) (s : Run Q W)
        → ((ns name : String) (w : W)
            → AlikeAnswers (c.get_secret ns name w) (d.get_secret ns name w))
        → hotkey_referenced conds c now sha256 name s ≡ hotkey_referenced conds d now sha256 name s
    unfolding hotkey_referenced clear_hash
    referenced_alike none s alike = refl
    referenced_alike (some name) s alike =
        answer_alike name _ _ s (alike s.node.namespace_ name s.world)

    -- The outcome, the status, the conditions and the events of the check depend on a hotkey only by its
    -- size and the first eight bytes of its hash: two clusters whose Secrets agree in these, or answer
    -- with the same error, cannot be told apart by it.
    pub validate_hotkey_secret_alike :
        ((ns name : String) (w : W)
          → AlikeAnswers (c.get_secret ns name w) (d.get_secret ns name w))
        → (s : Run Q W)
        → validate_hotkey_secret conds c now sha256 s ≡ validate_hotkey_secret conds d now sha256 s
    unfolding validate_hotkey_secret hotkey_referenced clear_hash
    validate_hotkey_secret_alike alike s =
        ap (λ p. if needs_hotkey s.node.spec.role then p else (ok tt, clear_hash conds c now s))
          (referenced_alike (hotkey_reference s.node.spec.validator) s alike)
