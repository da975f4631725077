-- ===== src/Controller/StatusUpdate.antt =====
-- How a TaoNode's status is stored, internal/controller/taonode_controller.go:
-- `updateStatusAndRequeue` and `updateAIAdvisoryStatus`.
pub mod Stored
use tao_node_guardian.Base.{ℕ, String, some, true, if◌then◌else◌, ◌∷◌, []}
use tao_node_guardian.Base.Int.{ℤ, pos}
use tao_node_guardian.Base.Errors.{wrap, Result, ok, err, is_not_found}
use tao_node_guardian.Base.Format.{score, sprintf}
use tao_node_guardian.Api.Status.{TaoNode, TaoNodeStatus, AiAdvisoryStatus}
use tao_node_guardian.Controller.Health.{Outcome}

-- The client's read of a TaoNode, by namespace and name, and its update of the status subresource.
pub record NodeStore (Q W : Type 0) : Type 0 where
  pub get_node : String → String → W → Result (TaoNode Q)
  pub update_status : TaoNode Q → W → Result (Unit {0}) × W
  pub retry : (W → Result (Unit {0}) × W) → W → Result (Unit {0}) × W

-- The answer of the model, of internal/ai/types.go; the confidence is a float32 as a score is.
pub record IncidentReport : Type 0 where
  pub severity : String
  pub summary : String
  pub root_cause_category : String
  pub recommended_action : String
  pub confidence_units : ℕ

abbrev pub requeue_after : ℤ → Result (Unit {0}) → Outcome
requeue_after after (ok _) = ok after
requeue_after after (err e) =
    if is_not_found e then ok (pos 0) else err (wrap "update TaoNode status: %w" e)

abbrev pub advisory_of : ℕ → IncidentReport → AiAdvisoryStatus
advisory_of now report = record {
  last_report = some (record {
    timestamp = some now;
    severity = report.severity;
    summary = report.summary;
    root_cause_category = report.root_cause_category;
    recommended_action = report.recommended_action;
    confidence = sprintf "%.2f" (score report.confidence_units ∷ []);
  });
  model_available = true;
  inferences_total24h = pos 0;
  avg_inference_latency_ms = pos 0;
}

module _ {Q W : Type 0} (store : NodeStore Q W) where
  -- An attempt writes a changed status onto the object as it is now.
  abbrev pub write_status :
      (TaoNodeStatus → TaoNodeStatus) → Result (TaoNode Q) → W → Result (Unit {0}) × W
  write_status change (err e) w = (err e, w)
  write_status change (ok latest) w =
      store.update_status (record latest { status = change latest.status }) w

  unfoldable pub status_attempt :
      String → String → (TaoNodeStatus → TaoNodeStatus) → W → Result (Unit {0}) × W
  status_attempt ns name change w = write_status change (store.get_node ns name w) w

  unfoldable pub update_status_and_requeue : TaoNode Q → ℤ → W → Outcome × W
  unfolding status_attempt
  update_status_and_requeue tn after w =
      let (r, w') = store.retry (status_attempt tn.namespace_ tn.name (λ _. tn.status)) w in
      (requeue_after after r, w')

  unfoldable pub update_ai_advisory_status :
      ℕ → TaoNode Q → IncidentReport → W → Result (Unit {0}) × W
  unfolding status_attempt
  update_ai_advisory_status now tn report w =
      store.retry
        (status_attempt tn.namespace_ tn.name
          (λ st. record st { ai_advisory = some (advisory_of now report) }))
        w
