-- ===== src/Ai/Advisor/Throttle.antt =====
-- How many requests the limiter of internal/ai/advisor.go lets through.
use tao_node_guardian.Base.{
  ℕ, ◌+◌, ◌-◌, ◌*◌, ◌≤◌, ◌≡◌, refl, sym, ap, subst, ◌∙◌, Option, none, ltb, String, if◌then◌else◌,
  List, [], ◌∷◌, ◌++◌, Bool, true, false, length, length-append, All, arith,
}
use tao_node_guardian.Base.Int.{pos_part}
use tao_node_guardian.Base.Errors.{Result, ok, err}
use tao_node_guardian.Controller.Advisory.{IncidentContext}
use tao_node_guardian.Controller.StatusUpdate.{IncidentReport}
use tao_node_guardian.Ai.Limiter.{AdvisorRateLimiter, renewed_window, allow_call}
use tao_node_guardian.Ai.Advisor.{Advisor, Model, OllamaRequest, ask, analyze_incident}

-- One call, with the two readings of the clock that it makes.
pub record Incident : Type 0 where
  pub now : ℕ
  pub again : ℕ
  pub context_ : IncidentContext

-- The limiter's answer, as a number of requests.
abbrev granted : Bool → ℕ
granted true = 1
granted false = 0

-- A call within a window of the length `window` from `start`.
abbrev pub Within : ℕ → ℕ → Incident → Type 0
Within start window i = (start ≤ i.now) × (i.now ≤ i.again) × (i.now ≤ start + window)

-- The requests that can still be sent up to `end`: what is left of the present window, and a whole
-- window if that one ends before.
abbrev left_until : ℕ → AdvisorRateLimiter → ℕ
left_until end r =
    let rest = pos_part r.max_calls - r.calls in
    if ltb r.reset_at end then rest + pos_part r.max_calls else rest

allow_call-left_until :
    (start : ℕ) (i : Incident) (r : AdvisorRateLimiter)
    → Within start r.window i
    → granted (allow_call i.now i.again r).0
        + left_until (start + r.window) (allow_call i.now i.again r).1
      ≤ left_until (start + r.window) r
unfolding allow_call renewed_window
allow_call-left_until start i r w = ground (arith, w)

allow_call-window :
    (now again : ℕ) (r : AdvisorRateLimiter) → (allow_call now again r).1.window ≡ r.window
unfolding allow_call renewed_window
allow_call-window now again r = ground arith

module _ {P B R : Type 0} (m : Model P B R) where
  ask-length :
      (endpoint model : String) (prompt : Result P) → length (ask m endpoint model prompt).1 ≤ 1
  unfolding ask
  ask-length endpoint model (ok _) = omega arith
  ask-length endpoint model (err _) = omega arith

  chosen-length :
      (b : Bool) (asked : Result (Option IncidentReport) × List (OllamaRequest P))
      → length asked.1 ≤ 1
      → length (if b then asked else (ok none, [])).1 ≤ granted b
  chosen-length true asked h = h
  chosen-length false asked h = omega arith

  -- The requests of a run of incidents, one after another.
  unfoldable pub requests : List Incident → Advisor → List (OllamaRequest P)
  requests [] a = []
  requests (i ∷ is_) a =
      let (answer, a') = analyze_incident m i.now i.again i.context_ a in
      answer.1 ++ requests is_ a'

  analyze_incident-length :
      (i : Incident) (a : Advisor)
      → length (analyze_incident m i.now i.again i.context_ a).0.1
        ≤ granted (allow_call i.now i.again a.limiter).0
  unfolding analyze_incident
  analyze_incident-length i a =
      chosen-length (allow_call i.now i.again a.limiter).0
        (ask m a.endpoint a.model (m.build_user_prompt i.context_))
        (ask-length a.endpoint a.model (m.build_user_prompt i.context_))

  analyze_incident-limiter :
      (i : Incident) (a : Advisor)
      → (analyze_incident m i.now i.again i.context_ a).1.limiter
        ≡ (allow_call i.now i.again a.limiter).1
  unfolding analyze_incident
  analyze_incident-limiter i a = refl

  requests-left_until :
      (start window : ℕ) (is_ : List Incident) (a : Advisor)
      → a.limiter.window ≡ window
      → All (Within start window) is_
      → length (requests is_ a) ≤ left_until (start + window) a.limiter
  unfolding requests
  requests-left_until start window [] a h w = omega arith
  requests-left_until start window (i ∷ is_) a h w =
      let a' = (analyze_incident m i.now i.again i.context_ a).1 in
      let after = (allow_call i.now i.again a.limiter).1 in
      let limiter = analyze_incident-limiter i a in
      let same = ap (λ r. r.window) limiter ∙ (allow_call-window i.now i.again a.limiter ∙ h) in
      let rest =
        subst (λ r. length (requests is_ a') ≤ left_until (start + window) r) limiter
          (requests-left_until start window is_ a' same w.1) in
      let used = λ (x : ℕ).
        granted (allow_call i.now i.again a.limiter).0 + left_until (start + x) after
        ≤ left_until (start + x) a.limiter in
      let now =
        subst used h
          (allow_call-left_until start i a.limiter (subst (λ x. Within start x i) (sym h) w.0)) in
      omega (
        arith,
        length-append (analyze_incident m i.now i.again i.context_ a).0.1 (requests is_ a'),
        analyze_incident-length i a,
        rest,
        now,
      )

  -- Within any one minute, or whatever the length of the limiter's window is, at most twice as many
  -- requests are sent to the model as a window allows, whatever the state of the limiter at the start.
  pub requests-le_twice :
      (start : ℕ) (is_ : List Incident) (a : Advisor)
      → All (Within start a.limiter.window) is_
      → length (requests is_ a) ≤ 2 * pos_part a.limiter.max_calls
  requests-le_twice start is_ a w =
      ground (arith, requests-left_until start a.limiter.window is_ a refl w)
