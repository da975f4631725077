-- ===== src/Ai/Advisor.antt =====
-- The advisor, internal/ai/advisor.go: `NewAdvisor` and `AnalyzeIncident`, with `generate` of
-- internal/ai/ollama_client.go. What makes the prompt of the incident's JSON, the HTTP client and the JSON
-- of the standard library are an interface. `P` is the type of prompts, `B` that of request bodies.
pub mod Throttle
use tao_node_guardian.Base.{
  ℕ, ◌*◌, String, List, [], ◌∷◌, Option, none, some, str_eq, join, ◌==◌, if◌then◌else◌,
}
use tao_node_guardian.Base.Int.{ℤ, pos, ◌==ℤ◌}
use tao_node_guardian.Base.Errors.{Result, ok, err, plain, ◌>>=◌, context}
use tao_node_guardian.Controller.Advisory.{IncidentContext}
use tao_node_guardian.Controller.StatusUpdate.{IncidentReport}
use tao_node_guardian.Ai.Limiter.{AdvisorRateLimiter, new_advisor_rate_limiter, allow_call}
use tao_node_guardian.Ai.Report.{RawReport, parse_report}

pub record Config : Type 0 where
  pub ollama_endpoint : String
  pub model : String
  pub request_timeout : ℤ
  pub max_calls_per_minute : ℤ

-- `endpoint` and `request_timeout` are what the client is built of.
pub record Advisor : Type 0 where
  pub endpoint : String
  pub request_timeout : ℤ
  pub model : String
  pub limiter : AdvisorRateLimiter

-- Times are nanoseconds.
abbrev second : ℕ
second = 1_000_000_000

unfoldable pub new_advisor : ℕ → Config → Result Advisor
unfolding new_advisor_rate_limiter
new_advisor now cfg =
    let max_calls =
      if cfg.max_calls_per_minute ==ℤ pos 0 then pos 5 else cfg.max_calls_per_minute in
    if str_eq cfg.ollama_endpoint ""
    then err (plain "OllamaEndpoint must not be empty")
    else ok (record {
      endpoint = cfg.ollama_endpoint;
      request_timeout =
          if cfg.request_timeout ==ℤ pos 0 then pos (30 * second) else cfg.request_timeout;
      model = if str_eq cfg.model "" then "llama3.2" else cfg.model;
      limiter = new_advisor_rate_limiter max_calls (60 * second) now;
    })

-- The options are constants: a temperature of 0.1 and 512 tokens, no stream, and JSON for the format.
pub record OllamaRequest (P : Type 0) : Type 0 where
  pub model : String
  pub prompt : P

pub record Response : Type 0 where
  pub status_code : ℕ
  pub body : List ℕ

-- `post` is the request with its two headers: it may be one that cannot be built. `decode` gives the text of
-- the answer, and `trim_right` is `strings.TrimRight` with a slash.
pub record Model (P B R : Type 0) : Type 0 where
  pub build_user_prompt : IncidentContext → Result P
  pub marshal : OllamaRequest P → Result B
  pub trim_right : String → String
  pub post : String → B → Result R
  pub send : R → Result Response
  pub decode : List ℕ → Result (List ℕ)
  pub unmarshal : List ℕ → Result RawReport

module _ {P B R : Type 0} (m : Model P B R) where
  abbrev decoded_answer : Response → Result (List ℕ)
  decoded_answer resp =
      if resp.status_code == 200
      then context "decode ollama response: %w" (m.decode resp.body)
      else err (plain "ollama returned HTTP %d: %s")

  unfoldable pub generate : String → OllamaRequest P → Result (List ℕ)
  generate endpoint req = context "marshal ollama request: %w" (m.marshal req) >>= (λ body.
      let url = join (m.trim_right endpoint) "/api/generate" in
      context "build ollama http request: %w" (m.post url body) >>= (λ http_req.
        context "ollama http call: %w" (m.send http_req) >>= (λ resp. decoded_answer resp)))

  -- The answer, and the requests that are made for the server.
  unfoldable pub ask :
      String → String → Result P → Result (Option IncidentReport) × List (OllamaRequest P)
  unfolding generate parse_report
  ask endpoint model (err e) = (context "build incident prompt: %w" (err e), [])
  ask endpoint model (ok prompt) =
      let req : OllamaRequest P = record { model = model; prompt = prompt } in
      (
        context "ollama inference: %w" (generate endpoint req)
            >>= (λ response. parse_report m.unmarshal response >>= (λ report. ok (some report))),
        req ∷ [],
      )

  -- The answer, the requests, and the advisor after the call. The clock is read at `now`, and at `again`
  -- if the window starts anew.
  unfoldable pub analyze_incident :
      ℕ
      → ℕ
      → IncidentContext
      → Advisor
      → (Result (Option IncidentReport) × List (OllamaRequest P)) × Advisor
  unfolding allow_call ask
  analyze_incident now again ic a =
      let (allowed, limiter) = allow_call now again a.limiter in
      let asked = ask a.endpoint a.model (m.build_user_prompt ic) in
      (if allowed then asked else (ok none, []), record a { limiter = limiter })
