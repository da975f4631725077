-- ===== src/Api/Webhook.antt =====
-- api/v1alpha1/taonode_webhook.go: the validation that an admission request runs. A field path is the
-- list of its names, and an error keeps what the constructor of k8s.io/apimachinery's `field` package
-- is given.
pub mod Policy
pub mod Updates
use tao_node_guardian.Base.{
  [], ℕ, ◌*◌, ◌/◌, String, List, ◌∷◌, ◌++◌, map, any, Option, none, some, Bool, false, not, ◌&&◌,
  if◌then◌else◌, str_eq,
}
use tao_node_guardian.Base.Int.{pos, ◌==ℤ◌, ltb_ℤ}
use tao_node_guardian.Base.Format.{Arg, str, int, bool, Formatted, sprintf, text}
use tao_node_guardian.Api.Quantities.{QuantityOps}
use tao_node_guardian.Api.Spec.{
  TaoNodeRole, subtensor, miner, validator, other_role, TaoNodeSpec, ValidatorSpec, GpuSpec,
  AutoExpandSpec, AnalyticsSpec, ChainStorageSpec,
}
use tao_node_guardian.Api.Status.{TaoNode}

pub data FieldErrorType : Type 0 where
  required forbidden invalid not_supported : FieldErrorType

pub record FieldError : Type 0 where
  pub type_ : FieldErrorType
  pub path : List String
  pub bad_value : Option Arg
  pub detail : Formatted

abbrev pub ErrorList : Type 0
ErrorList = List FieldError

abbrev pub field_required : List String → String → FieldError
field_required p d = record { type_ = required; path = p; bad_value = none; detail = text d }

abbrev pub field_forbidden : List String → Formatted → FieldError
field_forbidden p d = record { type_ = forbidden; path = p; bad_value = none; detail = d }

abbrev pub field_invalid : List String → Arg → Formatted → FieldError
field_invalid p v d = record { type_ = invalid; path = p; bad_value = some v; detail = d }

-- `append(errs, e)` under an `if`, from an empty list on: the errors of the tests in order.
abbrev pub when : Bool → FieldError → ErrorList
when b e = if b then e ∷ [] else []

abbrev pub is_mainnet : String → Bool
is_mainnet network = str_eq network "mainnet"

pub key_rule_errors : String → List String → ValidatorSpec → ErrorList
key_rule_errors network p v =
    when (str_eq v.hot_key_secret "") (
      field_required (p ++ "validator" ∷ "hotKeySecret" ∷ [])
        "hotKeySecret must be specified for validator and miner nodes")
    ++ when (is_mainnet network && not v.slashing_protection) (
        field_invalid (p ++ "validator" ∷ "slashingProtection" ∷ []) (bool false) (
          text
            "slashing protection cannot be disabled on mainnet (risk of double-signing penalties)"))
    ++ when (is_mainnet network && not (v.max_concurrent_validators ==ℤ pos 1)) (
        field_invalid (p ++ "validator" ∷ "maxConcurrentValidators" ∷ [])
          (int v.max_concurrent_validators)
          (text "must be exactly 1 on mainnet to prevent slashing from duplicate validators"))

pub validate_validator_spec : String → List String → Option ValidatorSpec → ErrorList
unfolding key_rule_errors
validate_validator_spec network p none =
    field_required (p ++ "validator" ∷ [])
      "validator spec is required when role is 'validator' or 'miner'"
    ∷ []
validate_validator_spec network p (some v) = key_rule_errors network p v

abbrev forbid_keys : Option ValidatorSpec → ErrorList
forbid_keys none = []
forbid_keys (some v) =
    field_forbidden ("spec" ∷ "validator" ∷ [])
      (text "validator key material is only allowed for roles 'validator' or 'miner'")
    ∷ []

-- The switch on the role at the start of `validate`.
pub role_errors : TaoNodeRole → String → Option ValidatorSpec → ErrorList
unfolding validate_validator_spec
role_errors validator network v = validate_validator_spec network ("spec" ∷ []) v
role_errors miner network v = validate_validator_spec network ("spec" ∷ []) v
role_errors subtensor network v = forbid_keys v
role_errors (other_role _) network v = forbid_keys v

abbrev pub valid_gpu_types : List String
valid_gpu_types =
    "nvidia-a100" ∷ "nvidia-h100" ∷ "nvidia-t4" ∷ "nvidia-l4" ∷ "nvidia-a10g" ∷ "nvidia-v100"
    ∷ "amd-gpu" ∷ []

pub validate_gpu_spec : List String → GpuSpec → ErrorList
validate_gpu_spec p g =
    when (not (any (str_eq g.type_) valid_gpu_types)) (record {
      type_ = not_supported;
      path = p ++ "type" ∷ [];
      bad_value = some (str g.type_);
      detail = sprintf "supported values" (map str valid_gpu_types);
    })
    ++ when (ltb_ℤ g.count (pos 1))
        (field_invalid (p ++ "count" ∷ []) (int g.count) (text "GPU count must be at least 1"))

abbrev pub gib : ℕ
gib = 1024 * 1024 * 1024

-- The map `minSizes`.
abbrev pub min_sizes : TaoNodeRole → Option ℕ
min_sizes subtensor = some (100 * gib)
min_sizes miner = some (50 * gib)
min_sizes validator = some (100 * gib)
min_sizes (other_role _) = none

abbrev pub role_text : TaoNodeRole → String
role_text subtensor = "subtensor"
role_text miner = "miner"
role_text validator = "validator"
role_text (other_role s) = s

pub validate_analytics_spec : List String → AnalyticsSpec → ErrorList
validate_analytics_spec p a =
    when (str_eq a.click_house_ref.endpoint "") (
      field_required (p ++ "clickhouseRef" ∷ "endpoint" ∷ [])
        "clickhouseRef.endpoint is required when analytics is enabled")
    ++ when (str_eq a.click_house_ref.credentials_secret "") (
        field_required (p ++ "clickhouseRef" ∷ "credentialsSecret" ∷ [])
          "clickhouseRef.credentialsSecret is required when analytics is enabled")

abbrev gpu_errors : Option GpuSpec → ErrorList
gpu_errors none = []
gpu_errors (some g) = validate_gpu_spec ("spec" ∷ "gpu" ∷ []) g

abbrev analytics_errors : Option AnalyticsSpec → ErrorList
analytics_errors none = []
analytics_errors (some a) =
    if a.enabled then validate_analytics_spec ("spec" ∷ "analytics" ∷ []) a else []

pub data Admission : Type 0 where
  admitted : Admission
  rejected : String → ErrorList → Admission

module _ {Q : Type 0} (ops : QuantityOps Q) where
  pub min_size_errors : List String → TaoNodeRole → Q → Option ℕ → ErrorList
  min_size_errors p role size none = []
  min_size_errors p role size (some least) = when (ltb_ℤ (ops.value size) (pos least)) (
      field_invalid (p ++ "size" ∷ []) (str (ops.to_text size)) (
        sprintf "minimum storage for %s role is %dGi"
          (str (role_text role) ∷ int (pos (least / gib)) ∷ [])))

  pub auto_expand_errors : List String → Q → Option (AutoExpandSpec Q) → ErrorList
  auto_expand_errors p size none = []
  auto_expand_errors p size (some ae) = when (ops.less ae.max_size size) (
      field_invalid (p ++ "autoExpand" ∷ "maxSize" ∷ []) (str (ops.to_text ae.max_size))
        (text "autoExpand.maxSize must be greater than or equal to the initial size"))

  pub validate_storage_size : List String → TaoNodeRole → ChainStorageSpec Q → ErrorList
  unfolding min_size_errors auto_expand_errors
  validate_storage_size p role st =
      min_size_errors p role st.size (min_sizes role) ++ auto_expand_errors p st.size st.auto_expand

  pub validate_immutable_fields : TaoNodeSpec Q → TaoNodeSpec Q → List String → ErrorList
  validate_immutable_fields old new p =
      when (not (str_eq new.network old.network)) (
        field_forbidden (p ++ "network" ∷ [])
          (text "network is immutable after creation — create a new TaoNode to change networks"))
      ++ when (not (new.subnet_id ==ℤ old.subnet_id))
          (field_forbidden (p ++ "subnetID" ∷ []) (text "subnetID is immutable after creation"))
      ++ when (ops.less new.chain_storage.size old.chain_storage.size) (
          field_forbidden (p ++ "chainStorage" ∷ "size" ∷ []) (
            sprintf "storage size can only be increased (current: %s)"
              (str (ops.to_text old.chain_storage.size) ∷ [])))

  abbrev immutable_errors : Option (TaoNode Q) → TaoNode Q → ErrorList
  immutable_errors none new = []
  immutable_errors (some old) new = validate_immutable_fields old.spec new.spec ("spec" ∷ [])

  -- `allErrs` of `validate`, in the order of its checks.
  pub all_errs : Option (TaoNode Q) → TaoNode Q → ErrorList
  all_errs old new =
      role_errors new.spec.role new.spec.network new.spec.validator
      ++ (gpu_errors new.spec.gpu
          ++ (validate_storage_size ("spec" ∷ "chainStorage" ∷ []) new.spec.role
                new.spec.chain_storage
              ++ (analytics_errors new.spec.analytics ++ immutable_errors old new)))

  abbrev verdict : String → ErrorList → Admission
  verdict name [] = admitted
  verdict name (e ∷ es) = rejected name (e ∷ es)

  pub validate : Option (TaoNode Q) → TaoNode Q → Admission
  unfolding all_errs
  validate old new = verdict new.name (all_errs old new)

  pub validate_create : TaoNode Q → Admission
  unfolding validate
  validate_create new = validate none new

  -- The old object is a TaoNode: the error for another type is not modelled.
  pub validate_update : TaoNode Q → TaoNode Q → Admission
  unfolding validate
  validate_update old new = validate (some old) new

  pub validate_delete : TaoNode Q → Admission
  validate_delete old = admitted
