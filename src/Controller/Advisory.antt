-- ===== src/Controller/Advisory.antt =====
-- When the reconciler asks for an AI advisory, and what is done with the answer:
-- `maybeRequestAIAdvisory`, `buildIncidentContext` and `sendNotifications` of
-- internal/controller/taonode_controller.go. The goroutine is a function of its own, which may run at
-- any later time.
use tao_node_guardian.Base.{
  ℕ, ◌*◌, ◌^◌, String, List, [], ◌∷◌, Option, none, some, Bool, false, ◌&&◌, ◌||◌, leb, str_eq,
  if◌then◌else◌,
}
use tao_node_guardian.Base.Int.{ℤ}
use tao_node_guardian.Base.Errors.{Result, ok, err}
use tao_node_guardian.Base.Format.{str, score, sprintf}
use tao_node_guardian.Api.Spec.{AiAdvisorSpec, NotificationChannels}
use tao_node_guardian.Api.Status.{TaoNode}
use tao_node_guardian.Api.Webhook.{role_text}
use tao_node_guardian.Controller.State.{warning, Output, event}
use tao_node_guardian.Controller.Health.{AnomalyScore}
use tao_node_guardian.Controller.AnalyticsStep.{phase_text}
use tao_node_guardian.Controller.StatusUpdate.{NodeStore, IncidentReport, update_ai_advisory_status}

-- Recent telemetry, past incidents and recoveries are always nil.
pub record IncidentContext : Type 0 where
  pub node_name : String
  pub namespace_ : String
  pub network : String
  pub subnet_id : ℤ
  pub role : String
  pub current_phase : String
  pub anomaly_scores : List AnomalyScore

unfoldable pub build_incident_context :
    {Q : Type 0} → TaoNode Q → List AnomalyScore → IncidentContext
build_incident_context tn anomalies = record {
  node_name = tn.name;
  namespace_ = tn.namespace_;
  network = tn.spec.network;
  subnet_id = tn.spec.subnet_id;
  role = role_text tn.spec.role;
  current_phase = phase_text tn.status.phase;
  anomaly_scores = anomalies;
}

-- The float32 nearest to 0.6, which is 10066330 / 2^24.
abbrev pub default_min_score : ℕ
default_min_score = 10_066_330 * 2 ^ 125

unfoldable pub should_advise : ℕ → List AnomalyScore → Bool
should_advise least [] = false
should_advise least (a ∷ rest) = leb least a.score_units || should_advise least rest

-- `parse_score` is `strconv.ParseFloat` at 32 bits, in the units of a score; a negative number counts as
-- 0, which every score reaches too, and a threshold that is no number is left out.
module _ (parse_score : String → Option ℕ) where
  abbrev pub parsed_or_default : Option ℕ → ℕ
  parsed_or_default none = default_min_score
  parsed_or_default (some least) = least

  unfoldable pub min_score : String → ℕ
  min_score configured =
      if str_eq configured "" then default_min_score else parsed_or_default (parse_score configured)

  abbrev pub wants_advice : Option AiAdvisorSpec → List AnomalyScore → Bool
  wants_advice none anomalies = false
  wants_advice (some advisor) anomalies =
      advisor.enabled && should_advise (min_score advisor.min_anomaly_score_for_advisory) anomalies

  -- The context for which the goroutine is started, if it is; the first argument says whether the
  -- reconciler has an advisor. An empty list of scores has none that reaches the least.
  unfoldable pub maybe_request_ai_advisory :
      {Q : Type 0} → Bool → TaoNode Q → List AnomalyScore → Option IncidentContext
  unfolding should_advise min_score build_incident_context
  maybe_request_ai_advisory has_advisor tn anomalies =
      if has_advisor && wants_advice tn.spec.ai_advisor anomalies
      then some (build_incident_context tn anomalies)
      else none

-- `times_hundred` is the float32 product with 100.
module _ (times_hundred : ℕ → ℕ) where
  abbrev pub channel_events : Option NotificationChannels → IncidentReport → List Output
  channel_events none report = []
  channel_events (some channels) report =
      if channels.kubernetes_events
      then event warning "AIIncidentReport" (
          sprintf "[%s] %s — %s (confidence: %.0f%%)" (
            str report.severity
            ∷ str report.summary
            ∷ str report.recommended_action
            ∷ score (times_hundred report.confidence_units)
            ∷ []))
        ∷ []
      else []

  abbrev pub notified : Option AiAdvisorSpec → IncidentReport → List Output
  notified none report = []
  notified (some advisor) report = channel_events advisor.notification_channels report

  unfoldable pub send_notifications : {Q : Type 0} → TaoNode Q → IncidentReport → List Output
  send_notifications tn report = notified tn.spec.ai_advisor report

  -- What the goroutine does with the advisor's answer; only an answer with a report has an effect.
  unfoldable pub advise :
      {Q W : Type 0}
      → NodeStore Q W
      → ℕ
      → TaoNode Q
      → Result (Option IncidentReport)
      → W
      → List Output × W
  unfolding update_ai_advisory_status send_notifications
  advise store now tn (err e) w = ([], w)
  advise store now tn (ok none) w = ([], w)
  advise store now tn (ok (some report)) w =
      (send_notifications tn report, (update_ai_advisory_status store now tn report w).1)
