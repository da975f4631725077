-- ===== src/Controller/Preflight.antt =====
-- The checks that internal/controller/taonode_controller.go makes before it creates the workload:
-- `validateNamespacePermissions` and `validateHotkeySecret`.
pub mod Secrecy
pub mod Outcome
pub mod Reads
use tao_node_guardian.Base.{
  ℕ, String, List, [], ◌∷◌, length, take, Option, none, some, Bool, true, false, str_eq,
  if◌then◌else◌,
}
use tao_node_guardian.Base.Dict.{Dict, lookup}
use tao_node_guardian.Base.Errors.{plain, wrap, Result, ok, err, is_not_found, is_forbidden}
use tao_node_guardian.Base.Format.{str, nat, bytes, sprintf, text}
use tao_node_guardian.Api.Spec.{TaoNodeRole, miner, validator, ValidatorSpec}
use tao_node_guardian.Api.Status.{is_true, is_false}
use tao_node_guardian.Controller.Conditions.{ConditionOps}
use tao_node_guardian.Controller.State.{warning, event, Run, put_status, emit, set_cond}

pub record Secret : Type 0 where
  pub data_ : Dict (List ℕ)

-- The client's reads of a Role, which the check only looks for, and of a Secret.
pub record PreflightClient (W : Type 0) : Type 0 where
  pub get_role : String → String → W → Result (Unit {0})
  pub get_secret : String → String → W → Result Secret

abbrev pub workload_manager_role : String
workload_manager_role = "taonode-guardian-workload-manager"

abbrev pub needs_hotkey : TaoNodeRole → Bool
needs_hotkey validator = true
needs_hotkey miner = true
needs_hotkey _ = false

-- The reference to the Secret, if there is one.
abbrev pub hotkey_reference : Option ValidatorSpec → Option String
hotkey_reference none = none
hotkey_reference (some v) = if str_eq v.hot_key_secret "" then none else some v.hot_key_secret

module _ {Q W : Type 0} (conds : ConditionOps) (client : PreflightClient W) (now : ℕ) where
  unfoldable pub permissions_answer : Result (Unit {0}) → Run Q W → Result (Unit {0}) × Run Q W
  unfolding set_cond
  permissions_answer (ok _) s = (
    ok tt,
    set_cond conds now "NamespaceReady" is_true "RBACReady"
        (sprintf "Workload-manager Role present in namespace %s" (str s.node.namespace_ ∷ [])) s,
  )
  permissions_answer (err e) s =
      let ns = s.node.namespace_ in
      let missing =
        sprintf
          "RBAC Role %q not found in namespace %q. SRE action required: apply config/rbac/role-workload-manager.yaml with kubectl -n %s and re-apply the RoleBinding."
          (str workload_manager_role ∷ str ns ∷ str ns ∷ []) in
      let unreadable =
        sprintf
          "Cannot verify RBAC Role %q in namespace %q because the controller ServiceAccount lacks read access to roles.rbac.authorization.k8s.io. Fix the production RBAC bundle before provisioning workloads."
          (str workload_manager_role ∷ str ns ∷ []) in
      if is_not_found e
      then (
        err e,
        emit (event warning "NamespaceRBACMissing" missing)
            (set_cond conds now "NamespaceReady" is_false "InsufficientPermissions" missing s),
      )
      else if is_forbidden e
      then (
        err e,
        emit (event warning "NamespaceRBACValidationForbidden" unreadable)
            (set_cond conds now "NamespaceReady" is_false "RBACValidationForbidden" unreadable s),
      )
      else (err (wrap "check namespace RBAC: %w" e), s)

  unfoldable pub validate_namespace_permissions : Run Q W → Result (Unit {0}) × Run Q W
  unfolding permissions_answer
  validate_namespace_permissions s =
      permissions_answer (client.get_role s.node.namespace_ workload_manager_role s.world) s

  unfoldable pub clear_hash : Run Q W → Run Q W
  clear_hash s = let st = record (s.node.status) { hotkey_hash = text "" } in put_status st s

  module _ (sha256 : List ℕ → List ℕ) where
    unfoldable pub hotkey_found : String → List ℕ → Run Q W → Result (Unit {0}) × Run Q W
    unfolding set_cond
    hotkey_found name key s =
        let prefix = take 8 (sha256 key) in
        let st = record (s.node.status) { hotkey_hash = sprintf "sha256:%x" (bytes prefix ∷ []) } in
        (
          ok tt,
          set_cond conds now "HotkeyAvailable" is_true "SecretValid"
              (sprintf "Hotkey secret %s validated (size_bytes: %d, hash: sha256:%x)"
                (str name ∷ nat (length key) ∷ bytes prefix ∷ []))
              (put_status st s),
        )

    unfoldable pub hotkey_lookup : String → Option (List ℕ) → Run Q W → Result (Unit {0}) × Run Q W
    unfolding clear_hash hotkey_found
    hotkey_lookup name none s =
        (err (plain "secret %s exists but missing 'hotkey' data key"), clear_hash s)
    hotkey_lookup name (some key) s = hotkey_found name key s

    unfoldable pub hotkey_answer : String → Result Secret → Run Q W → Result (Unit {0}) × Run Q W
    unfolding hotkey_lookup clear_hash set_cond
    hotkey_answer name (ok secret) s = hotkey_lookup name (lookup "hotkey" secret.data_) s
    hotkey_answer name (err e) s =
        if is_not_found e
        then (
          err e,
          set_cond conds now "HotkeyAvailable" is_false "SecretNotFound"
              (sprintf
                "Secret %s not found in namespace %s. Create it via ExternalSecret or kubectl."
                (str name ∷ str s.node.namespace_ ∷ []))
              (clear_hash s),
        )
        else (err (wrap "check hotkey secret: %w" e), clear_hash s)

    unfoldable pub hotkey_referenced : Option String → Run Q W → Result (Unit {0}) × Run Q W
    unfolding clear_hash hotkey_answer
    hotkey_referenced none s =
        (err (plain "hotkey secret reference is required for role %s"), clear_hash s)
    hotkey_referenced (some name) s =
        hotkey_answer name (client.get_secret s.node.namespace_ name s.world) s

    unfoldable pub validate_hotkey_secret : Run Q W → Result (Unit {0}) × Run Q W
    unfolding clear_hash hotkey_referenced
    validate_hotkey_secret s =
        if needs_hotkey s.node.spec.role
        then hotkey_referenced (hotkey_reference s.node.spec.validator) s
        else (ok tt, clear_hash s)
