-- ===== src/Controller/Conditions/Transitions.antt =====
-- The transition times that `setCondition` of internal/controller/helpers.go keeps, over many calls.
use tao_node_guardian.Base.{
  ℕ, ◌≡◌, ◌≢◌, ◌⊎◌, refl, sym, ap, ◌∙◌, subst, String, List, [], ◌∷◌, Option, none, some, true,
  false, if◌then◌else◌, str_eq, eq_iff, Bool-cases, inl, inr, arith,
}
use tao_node_guardian.Base.Int.{ℤ}
use tao_node_guardian.Base.Format.{Formatted}
use tao_node_guardian.Api.Status.{Condition, ConditionStatus, TaoNode}
use tao_node_guardian.Controller.Conditions.{
  ConditionOps, same_status, transition_time, new_condition, set_condition,
}

-- `meta.SetStatusCondition` on the condition that is there: the transition time changes only with the
-- status.
abbrev pub merged : Option Condition → Condition → Condition
merged none c = c
merged (some old) c = record c {
  last_transition_time =
      if same_status old.status c.status then old.last_transition_time else c.last_transition_time;
}

-- The documented behaviour of the two functions: a condition that was set is found, and conditions of
-- other types stay.
pub record ConditionLaws (ops : ConditionOps) : Type 0 where
  pub found :
      (cs : List Condition) (c : Condition)
      → ops.find_status_condition (ops.set_status_condition cs c) c.type_
        ≡ some (merged (ops.find_status_condition cs c.type_) c)
  pub others :
      (cs : List Condition) (c : Condition) (t : String)
      → str_eq c.type_ t ≡ false
      → ops.find_status_condition (ops.set_status_condition cs c) t ≡ ops.find_status_condition cs t

-- The arguments of a call.
pub record Report : Type 0 where
  pub now : ℕ
  pub cond_type : String
  pub status : ConditionStatus
  pub reason : String
  pub message : Formatted

-- Every call for this type reports this status.
abbrev pub AllReport : String → ConditionStatus → List Report → Type 0
AllReport t status [] = Unit {0}
AllReport t status (r ∷ rs) = ((r.cond_type ≡ t → r.status ≡ status) × AllReport t status rs)

same_status_refl : (s : ConditionStatus) → same_status s s ≡ true
same_status_refl s = ground arith

-- What `setCondition` makes of a condition that has the reported status already.
merged-new_condition :
    (generation : ℤ) (o : Option Condition) (old : Condition) (status : ConditionStatus)
    (r : Report)
    → o ≡ some old
    → old.status ≡ status
    → r.status ≡ status
    → let m = merged o (new_condition generation r.now o r.cond_type r.status r.reason r.message) in
      (m.status ≡ status) × (m.last_transition_time ≡ old.last_transition_time)
unfolding new_condition transition_time
merged-new_condition generation o old status r e h k =
    let both : same_status old.status r.status ≡ true =
      ap (λ x. same_status x r.status) h
      ∙ ap (λ x. same_status status x) k
      ∙ same_status_refl status in
    rw (e, both) (k, refl)

merged_status : (o : Option Condition) (c : Condition) → (merged o c).status ≡ c.status
merged_status none c = refl
merged_status (some old) c = refl

merged_time :
    (generation : ℤ) (o : Option Condition) (r : Report)
    → (merged o (
        new_condition generation r.now o r.cond_type r.status r.reason
          r.message)).last_transition_time
      ≡ transition_time o r.status r.now
unfolding new_condition transition_time
merged_time generation none r = refl
merged_time generation (some old) r = elim (Bool-cases (same_status old.status r.status)) [
  | inl same ↦ rw same refl
  | inr changed ↦ rw changed refl
]

-- There was no condition of the type, or one with another status.
abbrev pub Changed : Option Condition → ConditionStatus → Type 0
Changed none status = Unit {0}
Changed (some old) status = old.status ≢ status

-- The condition had the status before, since this time.
abbrev pub Kept : Option Condition → ConditionStatus → ℕ → Type 0
Kept o status time =
    (old : Condition) × (o ≡ some old) × (old.status ≡ status) × (old.last_transition_time ≡ time)

first_time :
    (o : Option Condition) (status : ConditionStatus) (now : ℕ)
    → let time = transition_time o status now in
      Kept o status time ⊎ (Changed o status × (time ≡ now))
unfolding transition_time
first_time none status now = inr (tt, refl)
first_time (some old) status now = elim (Bool-cases (same_status old.status status)) [
  | inl same ↦ inl (old, refl, ground arith, rw same refl)
  | inr changed ↦ inr (ground arith, rw changed refl)
]

module _ {Q : Type 0} (ops : ConditionOps) (laws : ConditionLaws ops) where
  -- The node has the condition `t`, with this status since this time.
  pub record Since (t : String) (status : ConditionStatus) (time : ℕ) (tn : TaoNode Q)
      : Type 0 where
    pub condition : Condition
    pub here : ops.find_status_condition tn.status.conditions t ≡ some condition
    pub same : condition.status ≡ status
    pub since : condition.last_transition_time ≡ time

  pub set_report : Report → TaoNode Q → TaoNode Q
  set_report r tn = set_condition ops r.now r.cond_type r.status r.reason r.message tn

  pub report_all : List Report → TaoNode Q → TaoNode Q
  report_all [] tn = tn
  report_all (r ∷ rs) tn = report_all rs (set_report r tn)

  set-Since :
      (t : String) (status : ConditionStatus) (time : ℕ) (r : Report) (tn : TaoNode Q)
      → (r.cond_type ≡ t → r.status ≡ status)
      → Since t status time tn
      → Since t status time (set_report r tn)
  unfolding set_report set_condition new_condition transition_time
  set-Since t status time r tn h v = elim (Bool-cases (str_eq r.cond_type t)) [
    | inl this ↦
        let name : r.cond_type ≡ t = (eq_iff r.cond_type t).0 this in
        let cs = tn.status.conditions in
        let there : ops.find_status_condition cs r.cond_type ≡ some v.condition =
          subst (λ x. ops.find_status_condition cs x ≡ some v.condition) (sym name) v.here in
        let c =
          new_condition tn.generation r.now (ops.find_status_condition cs r.cond_type) r.cond_type
            r.status r.reason r.message in
        let (same, since) =
          merged-new_condition tn.generation (ops.find_status_condition cs r.cond_type) v.condition
            status r there v.same (h name) in
        record {
          condition = merged (ops.find_status_condition cs r.cond_type) c;
          here =
              subst
                (λ x.
                  ops.find_status_condition (ops.set_status_condition cs c) x
                  ≡ some (merged (ops.find_status_condition cs r.cond_type) c))
                name (laws.found cs c);
          same = same;
          since = since ∙ v.since;
        }
    | inr other ↦ record {
      condition = v.condition;
      here = laws.others tn.status.conditions _ t other ∙ v.here;
      same = v.same;
      since = v.since;
    }
  ]

  -- The time since which a condition has a status: that of the call, if the call changed the status, and
  -- the old condition's if it did not.
  abbrev pub RightTime : Report → TaoNode Q → ℕ → Type 0
  RightTime r tn time =
      let o = ops.find_status_condition tn.status.conditions r.cond_type in
      Kept o r.status time ⊎ (Changed o r.status × (time ≡ r.now))

  first-Since :
      (r : Report) (tn : TaoNode Q)
      → Since r.cond_type r.status
          (transition_time
            (ops.find_status_condition tn.status.conditions r.cond_type)
            r.status
            r.now)
          (set_report r tn)
  unfolding set_report set_condition new_condition
  first-Since r tn =
      let cs = tn.status.conditions in
      let old = ops.find_status_condition cs r.cond_type in
      let c = new_condition tn.generation r.now old r.cond_type r.status r.reason r.message in
      record {
        condition = merged old c;
        here = laws.found cs c;
        same = merged_status old c;
        since = merged_time tn.generation old r;
      }

  later-Since :
      (t : String) (status : ConditionStatus) (time : ℕ) (rs : List Report) (tn : TaoNode Q)
      → AllReport t status rs
      → Since t status time tn
      → Since t status time (report_all rs tn)
  unfolding report_all
  later-Since t status time [] tn h v = v
  later-Since t status time (r ∷ rs) tn h v =
      later-Since t status time rs (set_report r tn) h.1 (set-Since t status time r tn h.0 v)

  -- After a call, and any further calls of which those for its type report the same status, the condition
  -- has that status since the call, if there was no condition of the type before or one with another
  -- status; and if it had the status before, since its old transition time. Calls for other types do not
  -- touch it.
  pub report_all-Since :
      (r : Report) (rs : List Report) (tn : TaoNode Q)
      → AllReport r.cond_type r.status rs
      → (time : ℕ) × RightTime r tn time × Since r.cond_type r.status time (report_all (r ∷ rs) tn)
  unfolding report_all
  report_all-Since r rs tn h =
      let o = ops.find_status_condition tn.status.conditions r.cond_type in
      (
        transition_time o r.status r.now,
        first_time o r.status r.now,
        later-Since r.cond_type r.status _ rs (set_report r tn) h (first-Since r tn),
      )
