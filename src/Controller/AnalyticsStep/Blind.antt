-- ===== src/Controller/AnalyticsStep/Blind.antt =====
-- `reconcileWithAnalytics` of internal/controller/taonode_controller.go with the detector of
-- internal/analytics/anomaly_detector.go: the breaker learns of no failure.
use tao_node_guardian.Base.{
  ℕ, ◌≡◌, sym, ap, subst, List, [], ◌∷◌, Option, none, some, Bool, true, if◌then◌else◌, refl, All,
  Bool-cases, inl, inr, arith,
}
use tao_node_guardian.Base.Errors.{Result}
use tao_node_guardian.Api.Spec.{AnalyticsSpec}
use tao_node_guardian.Api.Status.{TaoNode}
use tao_node_guardian.Analytics.CircuitBreaker.{closed, CircuitBreaker, allow, record_success}
use tao_node_guardian.Analytics.Detector.{ScoreFloats, Telemetry, Query, evaluate_node}
use tao_node_guardian.Controller.Conditions.{ConditionOps}
use tao_node_guardian.Controller.Health.{AnomalyScore}
use tao_node_guardian.Controller.AnalyticsStep.{
  FloatOps, Plane, Visit, detects, connect, ingest, evaluated, detect, allowed_if, with_analytics,
}

-- An answer of the detector to whatever its queries give, at any time, in any order, and however many
-- of their results arrive before the deadline; or no detector.
pub data Detected {F : Type 0} (s : ScoreFloats F)
    : Option (Result (List AnomalyScore)) → Type 0 where
  no_detector : Detected s none
  answers :
      (t : Telemetry F) (now : ℕ) (arrivals : List Query)
      → Detected s (some (evaluate_node s t now arrivals))

allow_closed : (now : ℕ) (cb : CircuitBreaker) → cb.state ≡ closed → allow now cb ≡ (true, cb)
unfolding allow
allow_closed now cb h = ground arith

success_closed : (cb : CircuitBreaker) → cb.state ≡ closed → (record_success cb).state ≡ closed
unfolding record_success
success_closed cb h = ground arith

chosen {ℓ} : {A : Type ℓ} (b : Bool) (x y : A) → b ≡ true → (if b then x else y) ≡ x
chosen b x y e = rw e refl

-- The plane after calls for any nodes, one after another.
unfoldable pub visit_all :
    {F Q D : Type 0} → ConditionOps → FloatOps F → List (TaoNode Q × Visit) → Plane F D → Plane F D
visit_all conds floats [] p = p
visit_all conds floats ((tn, v) ∷ vs) p =
    visit_all conds floats vs (with_analytics conds floats tn.spec.analytics v tn p).2

module _ {F Q D G : Type 0} (conds : ConditionOps) (floats : FloatOps F) (s : ScoreFloats G) where
  detect_closed :
      (o : Option (Result (List AnomalyScore))) (a : AnalyticsSpec) (v : Visit) (tn : TaoNode Q)
      (p : Plane F D)
      → Detected s o
      → p.circuit.state ≡ closed
      → (detect conds floats o a v tn p).2.circuit.state ≡ closed
  unfolding detect evaluated evaluate_node
  detect_closed _ a v tn p no_detector h = h
  detect_closed _ a v tn p (answers t now arrivals) h =
      elim (Bool-cases (detects a.anomaly_detection)) [
        | inl on ↦ rw on (success_closed p.circuit h)
        | inr off ↦ rw off h
      ]

  visit_closed :
      (o : Option AnalyticsSpec) (v : Visit) (tn : TaoNode Q) (p : Plane F D)
      → Detected s v.answer
      → p.circuit.state ≡ closed
      → (with_analytics conds floats o v tn p).2.circuit.state ≡ closed
  unfolding with_analytics allowed_if ingest
  visit_closed none v tn p d h = h
  visit_closed (some a) v tn p d h = elim (Bool-cases a.enabled) [
    | inl on ↦
        subst (λ x. x ≡ closed)
          (sym (
            ap {A = List AnomalyScore × TaoNode Q × Plane F D} (λ x. x.2.circuit.state)
              (chosen a.enabled _ _ on)))
          (rw (allow_closed v.now p.circuit h)
            (detect_closed v.answer a v (connect v.now tn) (ingest conds floats a v tn p) d h))
    | inr off ↦ rw off h
  ]

  -- With the detector itself to answer, a breaker that is closed is never opened by the reconciles of
  -- any nodes: not if every query of every reconcile fails, nor if all of them reach the deadline.
  pub visit_all_closed :
      (vs : List (TaoNode Q × Visit)) (p : Plane F D)
      → All (λ e. Detected s e.1.answer) vs
      → p.circuit.state ≡ closed
      → (visit_all conds floats vs p).circuit.state ≡ closed
  unfolding visit_all
  visit_all_closed [] p d h = h
  visit_all_closed ((tn, v) ∷ vs) p d h =
      visit_all_closed vs _ d.1 (visit_closed tn.spec.analytics v tn p d.0 h)
