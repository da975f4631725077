-- ===== src/Examples/Advisor.antt =====
-- An advisor that may ask twice in a minute, and five incidents within half a second around the end of a
-- window.
use tao_node_guardian.Base.{ℕ, ◌≤◌, ◌∷◌, [], ◌≡◌, refl, List, arith, length}
use tao_node_guardian.Base.Int.{pos}
use tao_node_guardian.Base.Errors.{ok, err, plain}
use tao_node_guardian.Controller.Advisory.{IncidentContext}
use tao_node_guardian.Ai.Limiter.{renewed_window, allow_call}
use tao_node_guardian.Ai.Advisor.{Advisor, Model, ask, analyze_incident}
use tao_node_guardian.Ai.Advisor.Throttle.{Incident, Within, requests, requests-le_twice}

abbrev incident_context : IncidentContext
incident_context = record {
  node_name = "miner-1";
  namespace_ = "tao";
  network = "mainnet";
  subnet_id = pos 1;
  role = "miner";
  current_phase = "Degraded";
  anomaly_scores = [];
}

abbrev incident : ℕ → Incident
incident t = record { now = t; again = t; context_ = incident_context }

abbrev incidents : List Incident
incidents = incident 59 ∷ incident 60 ∷ incident 61 ∷ incident 62 ∷ incident 63 ∷ []

abbrev silent : Model ℕ ℕ ℕ
silent = record {
  build_user_prompt = λ ic. ok 0;
  marshal = λ req. ok req.prompt;
  trim_right = λ text. text;
  post = λ url body. ok body;
  send = λ req. err (plain "timeout");
  decode = λ text. ok text;
  unmarshal = λ text. err (plain "empty");
}

abbrev advisor : Advisor
advisor = record {
  endpoint = "http://ollama:11434";
  request_timeout = pos 30;
  model = "llama3.2";
  limiter = record { calls = 0; max_calls = pos 2; window = 60; reset_at = 60 };
}

in_span : (t : ℕ) → 10 ≤ t → t ≤ 70 → Within 10 60 (incident t)
in_span t h k = (h, omega arith, k)

requests-le_twice_example : length (requests silent incidents advisor) ≤ 4
requests-le_twice_example = requests-le_twice silent 10 incidents advisor (
  in_span 59 (omega arith) (omega arith),
  (
    in_span 60 (omega arith) (omega arith),
    (
      in_span 61 (omega arith) (omega arith),
      (in_span 62 (omega arith) (omega arith), (in_span 63 (omega arith) (omega arith), tt)),
    ),
  ),
)

-- The bound is reached.
requests_around_the_end : length (requests silent incidents advisor) ≡ 4
unfolding requests analyze_incident allow_call renewed_window ask
requests_around_the_end = refl
