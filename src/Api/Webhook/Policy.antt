-- ===== src/Api/Webhook/Policy.antt =====
-- The policy that the admission webhook enforces, stated without errors or paths, and the proof that
-- the validation decides it.
use tao_node_guardian.Base.{
  ℕ, ◌≡◌, ◌≢◌, ◌↔◌, inl, inr, refl, String, List, [], ◌∷◌, ◌++◌, any, arith, Option, none, some,
  true, false, str_eq, eq_iff, Bool-cases,
}
use tao_node_guardian.Base.Int.{pos, ◌≤ℤ◌, eq_of_parts}
use tao_node_guardian.Api.Quantities.{QuantityOps}
use tao_node_guardian.Api.Spec.{
  TaoNodeRole, subtensor, miner, validator, other_role, ValidatorSpec, GpuSpec, AutoExpandSpec,
  AnalyticsSpec, ChainStorageSpec,
}
use tao_node_guardian.Api.Status.{TaoNode}
use tao_node_guardian.Api.Webhook.{
  ErrorList, key_rule_errors, role_errors, valid_gpu_types, validate_gpu_spec, min_sizes,
  validate_analytics_spec, admitted, min_size_errors, auto_expand_errors, validate_storage_size,
  validate_immutable_fields, all_errs, validate, gpu_errors, analytics_errors, verdict,
  immutable_errors,
}

abbrev pub KeyRules : String → ValidatorSpec → Type 0
KeyRules network v =
    (v.hot_key_secret ≢ "")
    × (network ≡ "mainnet" → (v.slashing_protection ≡ true) × (v.max_concurrent_validators ≡ pos 1))

-- Validators and miners need key material that keeps the rules; no other role may hold any.
abbrev pub KeyPolicy : TaoNodeRole → String → Option ValidatorSpec → Type 0
KeyPolicy validator network none = ⊥
KeyPolicy validator network (some v) = KeyRules network v
KeyPolicy miner network none = ⊥
KeyPolicy miner network (some v) = KeyRules network v
KeyPolicy subtensor network none = Unit
KeyPolicy subtensor network (some v) = ⊥
KeyPolicy (other_role _) network none = Unit
KeyPolicy (other_role _) network (some v) = ⊥

abbrev pub GpuPolicy : Option GpuSpec → Type 0
GpuPolicy none = Unit
GpuPolicy (some g) = (any (str_eq g.type_) valid_gpu_types ≡ true) × (pos 1 ≤ℤ g.count)

abbrev pub AnalyticsPolicy : Option AnalyticsSpec → Type 0
AnalyticsPolicy none = Unit
AnalyticsPolicy (some a) =
    a.enabled ≡ true
    → (a.click_house_ref.endpoint ≢ "") × (a.click_house_ref.credentials_secret ≢ "")

KeyRules-decided :
    (network : String) (p : List String) (v : ValidatorSpec)
    → (key_rule_errors network p v ≡ []) ↔ KeyRules network v
unfolding key_rule_errors
KeyRules-decided network p v = ground (arith, eq_iff v.hot_key_secret "", eq_iff network "mainnet")

role_decided :
    (role : TaoNodeRole) (network : String) (v : Option ValidatorSpec)
    → (role_errors role network v ≡ []) ↔ KeyPolicy role network v
unfolding role_errors
role_decided validator network none = ground arith
role_decided validator network (some v) = KeyRules-decided network ("spec" ∷ []) v
role_decided miner network none = ground arith
role_decided miner network (some v) = KeyRules-decided network ("spec" ∷ []) v
role_decided subtensor network none = ground arith
role_decided subtensor network (some v) = ground arith
role_decided (other_role _) network none = ground arith
role_decided (other_role _) network (some v) = ground arith

gpu_decided : (g : Option GpuSpec) → (gpu_errors g ≡ []) ↔ GpuPolicy g
unfolding validate_gpu_spec
gpu_decided none = ground arith
gpu_decided (some g) = elim (Bool-cases (any (str_eq g.type_) valid_gpu_types)) [
  | inl known ↦ rw known (ground arith)
  | inr new ↦ rw new (ground arith)
]

analytics_decided : (a : Option AnalyticsSpec) → (analytics_errors a ≡ []) ↔ AnalyticsPolicy a
unfolding validate_analytics_spec
analytics_decided none = ground arith
analytics_decided (some a) =
    ground
      (arith, eq_iff a.click_house_ref.endpoint "", eq_iff a.click_house_ref.credentials_secret "")

append_nil_iff : (xs ys : ErrorList) → (xs ++ ys ≡ []) ↔ ((xs ≡ []) × (ys ≡ []))
append_nil_iff [] ys = ((λ e. (refl, e)), λ e. e.1)
append_nil_iff (x ∷ xs) ys = ((λ e. absurd (cc)), λ e. absurd (cc (e.0)))

module _ {Q : Type 0} (ops : QuantityOps Q) where
  abbrev pub StoragePolicy : TaoNodeRole → ChainStorageSpec Q → Type 0
  StoragePolicy role st =
      ((least : ℕ) → min_sizes role ≡ some least → pos least ≤ℤ ops.value st.size)
      × ((ae : AutoExpandSpec Q) → st.auto_expand ≡ some ae → ops.less ae.max_size st.size ≡ false)

  -- What may not change: the network, the subnet, and the size downwards.
  abbrev pub UpdatePolicy : Option (TaoNode Q) → TaoNode Q → Type 0
  UpdatePolicy none new = Unit
  UpdatePolicy (some old) new =
      (new.spec.network ≡ old.spec.network)
      × (new.spec.subnet_id ≡ old.spec.subnet_id)
      × (ops.less new.spec.chain_storage.size old.spec.chain_storage.size ≡ false)

  pub record Policy (old : Option (TaoNode Q)) (new : TaoNode Q) : Type 0 where
    pub keys : KeyPolicy new.spec.role new.spec.network new.spec.validator
    pub gpu : GpuPolicy new.spec.gpu
    pub storage : StoragePolicy new.spec.role new.spec.chain_storage
    pub analytics : AnalyticsPolicy new.spec.analytics
    pub update : UpdatePolicy old new

  min_size_decided :
      (p : List String) (role : TaoNodeRole) (size : Q) (m : Option ℕ)
      → (min_size_errors ops p role size m ≡ [])
        ↔ ((least : ℕ) → m ≡ some least → pos least ≤ℤ ops.value size)
  unfolding min_size_errors
  min_size_decided p role size none = ((λ e least h. absurd (cc)), λ h. refl)
  min_size_decided p role size (some b) =
      ((λ e least h. ground arith), λ h. ground (arith, h b refl))

  auto_expand_decided :
      (p : List String) (size : Q) (o : Option (AutoExpandSpec Q))
      → (auto_expand_errors ops p size o ≡ [])
        ↔ ((ae : AutoExpandSpec Q) → o ≡ some ae → ops.less ae.max_size size ≡ false)
  unfolding auto_expand_errors
  auto_expand_decided p size none = ((λ e ae h. absurd (cc)), λ h. refl)
  auto_expand_decided p size (some b) = ((λ e ae h. ground arith), λ h. ground (arith, h b refl))

  storage_decided :
      (p : List String) (role : TaoNodeRole) (st : ChainStorageSpec Q)
      → (validate_storage_size ops p role st ≡ []) ↔ StoragePolicy role st
  unfolding validate_storage_size
  storage_decided p role st =
      let both =
        append_nil_iff (min_size_errors ops p role st.size (min_sizes role))
          (auto_expand_errors ops p st.size st.auto_expand) in
      let least = min_size_decided p role st.size (min_sizes role) in
      let grow = auto_expand_decided p st.size st.auto_expand in
      ((λ e. (least.0 (both.0 e).0, grow.0 (both.0 e).1)), λ h. both.1 (least.1 h.0, grow.1 h.1))

  update_decided :
      (old : Option (TaoNode Q)) (new : TaoNode Q)
      → (immutable_errors ops old new ≡ []) ↔ UpdatePolicy old new
  unfolding validate_immutable_fields
  update_decided none new = ground arith
  update_decided (some old) new = ground (
    arith,
    eq_iff new.spec.network old.spec.network,
    eq_of_parts new.spec.subnet_id old.spec.subnet_id,
  )

  all_errs_decided :
      (old : Option (TaoNode Q)) (new : TaoNode Q) → (all_errs ops old new ≡ []) ↔ Policy old new
  unfolding all_errs
  all_errs_decided old new =
      let roles = role_errors new.spec.role new.spec.network new.spec.validator in
      let gpus = gpu_errors new.spec.gpu in
      let stores =
        validate_storage_size ops ("spec" ∷ "chainStorage" ∷ []) new.spec.role
          new.spec.chain_storage in
      let reports = analytics_errors new.spec.analytics in
      let frozen = immutable_errors ops old new in
      let last = append_nil_iff reports frozen in
      let third = append_nil_iff stores (reports ++ frozen) in
      let second = append_nil_iff gpus (stores ++ (reports ++ frozen)) in
      let first = append_nil_iff roles (gpus ++ (stores ++ (reports ++ frozen))) in
      let st =
        storage_decided ("spec" ∷ "chainStorage" ∷ []) new.spec.role new.spec.chain_storage in
      (
        (λ e.
            let (er, rest_gpu) = first.0 e in
            let (eg, rest_store) = second.0 rest_gpu in
            let (es, rest_report) = third.0 rest_store in
            let (ea, ei) = last.0 rest_report in
            record {
              keys = (role_decided new.spec.role new.spec.network new.spec.validator).0 er;
              gpu = (gpu_decided new.spec.gpu).0 eg;
              storage = st.0 es;
              analytics = (analytics_decided new.spec.analytics).0 ea;
              update = (update_decided old new).0 ei;
            }),
        λ h. first.1 (
          (role_decided new.spec.role new.spec.network new.spec.validator).1 h.keys,
          second.1 (
            (gpu_decided new.spec.gpu).1 h.gpu,
            third.1 (
              st.1 h.storage,
              last.1 (
                (analytics_decided new.spec.analytics).1 h.analytics,
                (update_decided old new).1 h.update,
              ),
            ),
          ),
        ),
      )

  verdict_decided : (name : String) (es : ErrorList) → (verdict ops name es ≡ admitted) ↔ (es ≡ [])
  verdict_decided name [] = ((λ e. refl), λ e. refl)
  verdict_decided name (e ∷ es) = ((λ h. absurd (cc)), λ h. absurd (cc))

  -- A create request (no old object) or an update is admitted exactly when the object keeps the
  -- policy: keys for validators and miners only, with slashing protection and one validator on
  -- mainnet, a known GPU type and a positive count, the least size of its role and no expansion
  -- limit below the size, analytics with endpoint and credentials; and for an update the network
  -- and the subnet of the old object and no smaller size.
  pub validate_iff :
      (old : Option (TaoNode Q)) (new : TaoNode Q)
      → (validate ops old new ≡ admitted) ↔ Policy old new
  unfolding validate
  validate_iff old new =
      let v = verdict_decided new.name (all_errs ops old new) in
      let a = all_errs_decided old new in ((λ h. a.0 (v.0 h)), λ h. v.1 (a.1 h))
