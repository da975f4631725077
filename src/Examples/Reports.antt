-- ===== src/Examples/Reports.antt =====
-- Conditions that are reported again and again.
use tao_node_guardian.Base.{
  ap, ◌∙◌, ℕ, ◌∷◌, [], ◌≡◌, refl, none, some, List, String, str_eq, eq_iff, Bool-cases, inl, inr,
  false, true, arith,
}
use tao_node_guardian.Base.Int.{pos}
use tao_node_guardian.Base.Format.{text}
use tao_node_guardian.Api.Status.{Condition, is_true, is_false, synced, TaoNode}
use tao_node_guardian.Controller.Conditions.Transitions.{
  merged, ConditionLaws, Report, Since, RightTime, report_all, report_all-Since,
}
use tao_node_guardian.Examples.Nodes.{conditions, find, set, node_in}

self : (t : String) → str_eq t t ≡ true
self t = (eq_iff t t).1 refl

set_found :
    (cs : List Condition) (c : Condition)
    → find (set cs c) c.type_ ≡ some (merged (find cs c.type_) c)
set_found [] c = ground (arith, eq_iff c.type_ c.type_)
set_found (d ∷ ds) c = elim (Bool-cases (str_eq d.type_ c.type_)) [
  | inl this ↦ rw (this, self c.type_) refl
  | inr other ↦ rw other (rw other (set_found ds c))
]

set_others :
    (cs : List Condition) (c : Condition) (t : String)
    → str_eq c.type_ t ≡ false
    → find (set cs c) t ≡ find cs t
set_others [] c t h = rw h refl
set_others (d ∷ ds) c t h = elim (Bool-cases (str_eq d.type_ c.type_)) [
  | inl this ↦
      let there : str_eq d.type_ t ≡ false =
        ap (λ x. str_eq x t) ((eq_iff d.type_ c.type_).0 this) ∙ h in
      rw (this, h, there) refl
  | inr other ↦ elim (Bool-cases (str_eq d.type_ t)) [
    | inl at_t ↦ rw other (rw at_t refl)
    | inr past ↦ rw other (rw past (set_others ds c t h))
  ]
]

laws : ConditionLaws conditions
laws = record { found = set_found; others = set_others }

abbrev report : ℕ → Report
report t = record {
  now = t;
  cond_type = "Ready";
  status = is_true;
  reason = "Up";
  message = text "";
}

abbrev lost : Report
lost = record {
  now = 25;
  cond_type = "Synced";
  status = is_false;
  reason = "Lost";
  message = text "";
}

abbrev ready : Condition
ready = record {
  type_ = "Ready";
  status = is_true;
  observed_generation = pos 1;
  last_transition_time = 10;
  reason = "Up";
  message = text "";
}

abbrev node : TaoNode ℕ
node =
    let st = record ((node_in synced none).status) { conditions = ready ∷ [] } in
    record (node_in synced none) { status = st }

report_all-Since_example :
    (time : ℕ) × RightTime conditions laws (report 20) node time
    × Since conditions laws "Ready" is_true time
        (report_all conditions laws (report 20 ∷ lost ∷ report 30 ∷ []) node)
report_all-Since_example =
    report_all-Since conditions laws (report 20) (lost ∷ report 30 ∷ []) node
      ((λ e. absurd (cc)), ((λ e. refl), tt))
