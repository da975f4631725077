-- ===== src/Controller/Conditions.antt =====
-- `setCondition` of internal/controller/helpers.go, and the two functions of k8s.io/apimachinery's
-- `meta` package that it calls, which are not part of the repository.
pub mod Transitions
use tao_node_guardian.Base.{ℕ, String, List, Option, none, some, Bool, true, false, if◌then◌else◌}
use tao_node_guardian.Base.Int.{ℤ}
use tao_node_guardian.Base.Format.{Formatted}
use tao_node_guardian.Api.Status.{
  Condition, ConditionStatus, is_true, is_false, is_unknown, TaoNode,
}

pub record ConditionOps : Type 0 where
  pub find_status_condition : List Condition → String → Option Condition
  pub set_status_condition : List Condition → Condition → List Condition

abbrev pub same_status : ConditionStatus → ConditionStatus → Bool
same_status is_true is_true = true
same_status is_false is_false = true
same_status is_unknown is_unknown = true
same_status _ _ = false

-- The transition time of the new condition: the old one's, if there is one with the same status.
unfoldable pub transition_time : Option Condition → ConditionStatus → ℕ → ℕ
transition_time none status now = now
transition_time (some old) status now =
    if same_status old.status status then old.last_transition_time else now

unfoldable pub new_condition :
    ℤ → ℕ → Option Condition → String → ConditionStatus → String → Formatted → Condition
unfolding transition_time
new_condition generation now old cond_type status reason message = record {
  type_ = cond_type;
  status = status;
  observed_generation = generation;
  last_transition_time = transition_time old status now;
  reason = reason;
  message = message;
}

module _ (ops : ConditionOps) where
  unfoldable pub set_condition :
      {Q : Type 0} → ℕ → String → ConditionStatus → String → Formatted → TaoNode Q → TaoNode Q
  unfolding new_condition
  set_condition now cond_type status reason message tn =
      let old = ops.find_status_condition tn.status.conditions cond_type in
      let new = new_condition tn.generation now old cond_type status reason message in
      let conditions = ops.set_status_condition tn.status.conditions new in
      let status' = record (tn.status) { conditions = conditions } in record tn { status = status' }
