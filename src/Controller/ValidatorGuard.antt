-- ===== src/Controller/ValidatorGuard.antt =====
-- internal/controller/validator_guard.go: the Lease that is to keep a second validator from running.
pub mod Holder
pub mod Lonely
use tao_node_guardian.Base.{
  [], ℕ, String, ◌∷◌, Option, none, some, Bool, true, false, not, ◌&&◌, ◌||◌, if◌then◌else◌, str_eq,
}
use tao_node_guardian.Base.Int.{ℤ, pos, ◌+ℤ◌, ◌*ℤ◌, ltb_ℤ}
use tao_node_guardian.Base.{join}
use tao_node_guardian.Base.Dict.{Dict}
use tao_node_guardian.Base.Errors.{wrap, Result, ok, err, is_not_found}
use tao_node_guardian.Base.Format.{str, Formatted, sprintf}
use tao_node_guardian.Api.Spec.{TaoNodeRole}
use tao_node_guardian.Api.Status.{TaoNode}
use tao_node_guardian.Controller.RateLimiter.{second}
use tao_node_guardian.Controller.State.{warning, event, Pod, KubeClient, Run, emit}
use tao_node_guardian.Api.Spec.{validator, ValidatorSpec}
use tao_node_guardian.Controller.Recovery.{pod_name, node_key}
use tao_node_guardian.Controller.Snapshots.{labels_for_node}

pub record Lease : Type 0 where
  pub name : String
  pub namespace_ : String
  pub labels : Dict Formatted
  pub holder_identity : Option String
  pub lease_duration_seconds : Option ℤ
  pub acquire_time : Option ℕ
  pub renew_time : Option ℕ

-- The calls of the Kubernetes client on Leases. `set_controller_reference` adds the owner reference
-- to a Lease that is about to be created.
pub record LeaseClient (W : Type 0) : Type 0 where
  pub get_lease : String → String → W → Result Lease
  pub create_lease : Lease → W → Result (Unit {0}) × W
  pub update_lease : Lease → W → Result (Unit {0}) × W
  pub delete_lease : Lease → W → Result (Unit {0}) × W
  pub set_controller_reference : String → Lease → Result (Unit {0})

abbrev pub lease_duration : ℤ
lease_duration = pos 30

abbrev pub singleton_suffix : String
singleton_suffix = "-validator-singleton"

abbrev pub lease_name : {Q : Type 0} → TaoNode Q → String
lease_name tn = join tn.name singleton_suffix

abbrev pub is_validator : TaoNodeRole → Bool
is_validator validator = true
is_validator _ = false

abbrev allows_several : Option ValidatorSpec → Bool
allows_several none = false
allows_several (some v) = ltb_ℤ (pos 1) v.max_concurrent_validators

-- No Lease is wanted: another role, or several validators allowed off mainnet.
unfoldable pub is_exempt : {Q : Type 0} → TaoNode Q → Bool
is_exempt tn =
    not (is_validator tn.spec.role)
    || (not (str_eq tn.spec.network "mainnet") && allows_several tn.spec.validator)

unfoldable pub new_lease : {Q : Type 0} → ℕ → TaoNode Q → Lease
new_lease now tn = record {
  name = lease_name tn;
  namespace_ = tn.namespace_;
  labels = labels_for_node tn;
  holder_identity = some (node_key tn);
  lease_duration_seconds = some lease_duration;
  acquire_time = some now;
  renew_time = some now;
}

abbrev pub text_or_empty : Option String → String
text_or_empty none = ""
text_or_empty (some h) = h

abbrev pub current_holder : Lease → String
current_holder l = text_or_empty l.holder_identity

-- `time.Now().Before(expiry)`, if both the renewal and the duration are set.
abbrev pub live_at : ℕ → Option ℕ → Option ℤ → Bool
live_at now (some renewed) (some duration) = ltb_ℤ (pos now) (pos renewed +ℤ duration *ℤ pos second)
live_at now _ _ = false

abbrev renewed : ℕ → Lease → Lease
renewed now l = record l { renew_time = some now }

abbrev taken_over : {Q : Type 0} → ℕ → TaoNode Q → Lease → Lease
taken_over now tn l = record l {
  holder_identity = some (node_key tn);
  acquire_time = some now;
  renew_time = some now;
}

-- The error of a call, wrapped, or success.
abbrev wrapped : String → Result (Unit {0}) → Result (Unit {0})
wrapped m (ok u) = ok u
wrapped m (err e) = err (wrap m e)

module _ {Q W : Type 0} (leases : LeaseClient W) (kube : KubeClient W) (now : ℕ) where
  unfoldable pub cordon_found : Result Pod → Run Q W → Result (Unit {0}) × Run Q W
  cordon_found (err e) s = (if is_not_found e then ok tt else err e, s)
  cordon_found (ok pod) s =
      let (r, w') = kube.delete_pod pod s.world in
      (wrapped "cordon validator pod %s: %w" r, record s { world = w' })

  unfoldable pub cordon_validator_pod : Run Q W → Result (Unit {0}) × Run Q W
  unfolding cordon_found
  cordon_validator_pod s = cordon_found (kube.get_pod s.node.namespace_ (pod_name s.node) s.world) s

  unfoldable pub write_lease : String → Lease → Run Q W → Result (Unit {0}) × Run Q W
  write_lease message l s =
      let (r, w') = leases.update_lease l s.world in (wrapped message r, record s { world = w' })

  unfoldable pub create_own : Result (Unit {0}) → Run Q W → Result (Unit {0}) × Run Q W
  create_own (err e) s = (err (wrap "set owner reference on lease: %w" e), s)
  create_own (ok _) s =
      let (r, w') = leases.create_lease (new_lease now s.node) s.world in
      (wrapped "create validator Lease: %w" r, record s { world = w' })

  -- A Lease that is there: renewed by its holder, respected while it is live, else taken over.
  unfoldable pub with_lease : Lease → Run Q W → Result (Unit {0}) × Run Q W
  unfolding write_lease cordon_validator_pod
  with_lease l s =
      if str_eq (current_holder l) (node_key s.node)
      then write_lease "renew validator Lease: %w" (renewed now l) s
      else if live_at now l.renew_time l.lease_duration_seconds
      then cordon_validator_pod (
          emit
            (event warning "ValidatorSingletonViolation" (
              sprintf
                "Another validator already holds the singleton Lease (%s). Cordon-and-alert applied."
                (str (current_holder l) ∷ [])))
            s)
      else write_lease "take over expired validator Lease: %w" (taken_over now s.node l) s

  unfoldable pub with_answer : Result Lease → Run Q W → Result (Unit {0}) × Run Q W
  unfolding create_own with_lease
  with_answer (ok l) s = with_lease l s
  with_answer (err e) s =
      if is_not_found e
      then create_own (leases.set_controller_reference (node_key s.node) (new_lease now s.node)) s
      else (err (wrap "get validator Lease: %w" e), s)

  unfoldable pub ensure_validator_singleton : Run Q W → Result (Unit {0}) × Run Q W
  unfolding is_exempt with_answer
  ensure_validator_singleton s =
      if is_exempt s.node
      then (ok tt, s)
      else with_answer (leases.get_lease s.node.namespace_ (lease_name s.node) s.world) s
