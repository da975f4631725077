-- ===== src/Controller/Preflight/Reads.antt =====
-- The checks before the workload only read the cluster: `validateNamespacePermissions` and
-- `validateHotkeySecret` of internal/controller/taonode_controller.go.
use tao_node_guardian.Base.{
  ℕ, String, List, Option, none, some, true, ◌≡◌, inl, inr, refl, Bool-cases,
}
use tao_node_guardian.Base.Dict.{lookup}
use tao_node_guardian.Base.Errors.{Result, ok, err, is_not_found, is_forbidden}
use tao_node_guardian.Controller.Conditions.{ConditionOps}
use tao_node_guardian.Controller.State.{Run, set_cond}
use tao_node_guardian.Controller.Health.{is_err}
use tao_node_guardian.Controller.Preflight.{
  Secret, PreflightClient, needs_hotkey, permissions_answer, hotkey_lookup, hotkey_found,
  hotkey_answer, hotkey_referenced, hotkey_reference, clear_hash, validate_hotkey_secret,
}

module _ {Q W : Type 0} where
  -- The same cluster, and a node with the same namespace and role.
  pub record Same (s t : Run Q W) : Type 0 where
    pub world : t.world ≡ s.world
    pub namespace_ : t.node.namespace_ ≡ s.node.namespace_
    pub role : t.node.spec.role ≡ s.node.spec.role

  module _ (conds : ConditionOps) (client : PreflightClient W) (now : ℕ) where
    pub permissions_answer-Same :
        (a : Result (Unit {0})) (s : Run Q W) → Same s (permissions_answer conds client now a s).1
    unfolding permissions_answer set_cond
    permissions_answer-Same (ok _) s = record { world = refl; namespace_ = refl; role = refl }
    permissions_answer-Same (err e) s = elim (Bool-cases (is_not_found e)) [
      | inl missing ↦ rw missing (record { world = refl; namespace_ = refl; role = refl })
      | inr there ↦ elim (Bool-cases (is_forbidden e)) [
        | inl closed ↦ rw (there, closed) (record { world = refl; namespace_ = refl; role = refl })
        | inr other ↦ rw (there, other) (record { world = refl; namespace_ = refl; role = refl })
      ]
    ]

    pub permissions_answer_fails :
        (a : Result (Unit {0})) (s : Run Q W)
        → is_err a ≡ true
        → is_err (permissions_answer conds client now a s).0 ≡ true
    unfolding permissions_answer
    permissions_answer_fails (ok _) s h = absurd (cc)
    permissions_answer_fails (err e) s h = elim (Bool-cases (is_not_found e)) [
      | inl missing ↦ rw missing refl
      | inr there ↦ elim (Bool-cases (is_forbidden e)) [
        | inl closed ↦ rw (there, closed) refl
        | inr other ↦ rw (there, other) refl
      ]
    ]

    module _ (sha256 : List ℕ → List ℕ) where
      hotkey_lookup_world :
          (name : String) (k : Option (List ℕ)) (s : Run Q W)
          → (hotkey_lookup conds client now sha256 name k s).1.world ≡ s.world
      unfolding hotkey_lookup hotkey_found clear_hash set_cond
      hotkey_lookup_world name none s = refl
      hotkey_lookup_world name (some key) s = refl

      hotkey_answer_world :
          (name : String) (a : Result Secret) (s : Run Q W)
          → (hotkey_answer conds client now sha256 name a s).1.world ≡ s.world
      unfolding hotkey_answer clear_hash set_cond
      hotkey_answer_world name (ok secret) s =
          hotkey_lookup_world name (lookup "hotkey" secret.data_) s
      hotkey_answer_world name (err e) s = elim (Bool-cases (is_not_found e)) [
        | inl missing ↦ rw missing refl
        | inr there ↦ rw there refl
      ]

      hotkey_referenced_world :
          (name : Option String) (s : Run Q W)
          → (hotkey_referenced conds client now sha256 name s).1.world ≡ s.world
      unfolding hotkey_referenced clear_hash
      hotkey_referenced_world none s = refl
      hotkey_referenced_world (some name) s = hotkey_answer_world name _ s

      -- The hotkey check reads the cluster only.
      pub hotkey_check_world :
          (s : Run Q W) → (validate_hotkey_secret conds client now sha256 s).1.world ≡ s.world
      unfolding validate_hotkey_secret clear_hash
      hotkey_check_world s = elim (Bool-cases (needs_hotkey s.node.spec.role)) [
        | inl needed ↦
            rw needed (hotkey_referenced_world (hotkey_reference s.node.spec.validator) s)
        | inr free ↦ rw free refl
      ]
