-- ===== src/Analytics/Detector.antt =====
-- The anomaly detector, internal/analytics/anomaly_detector.go, over interfaces to floats and to the rows
-- that its five queries of ClickHouse scan. A query that does not end is one whose result never comes.
pub mod Arrivals
use tao_node_guardian.Base.{
  ℕ, zero, suc, ◌*◌, ◌^◌, String, List, [], ◌∷◌, ◌++◌, Bool, ltb, if◌then◌else◌,
}
use tao_node_guardian.Base.Int.{pos}
use tao_node_guardian.Base.Errors.{Result, ok, err, ◌>>=◌, context}
use tao_node_guardian.Base.Format.{Formatted, nat, sprintf}
use tao_node_guardian.Controller.Cost.{Float64}
use tao_node_guardian.Controller.Health.{AnomalyScore}

-- `min` and `max` are those of Go's `math`; `to_float32` is a float32 that is not negative, in units of
-- 2^-149, and `render` what `Sprintf` makes of a format and its arguments.
pub record ScoreFloats (F : Type 0) : Type 0 where
  pub float64 : Float64 F
  pub greater : F → F → Bool
  pub equal : F → F → Bool
  pub min : F → F → F
  pub max : F → F → F
  pub to_float32 : F → ℕ
  pub render : Formatted → String

-- The rows of the queries for one node, in the order of their columns.
pub record Telemetry (F : Type 0) : Type 0 where
  pub block_lag_row : Result (F × F × F)
  pub peer_count_row : Result (F × F)
  pub disk_usage_row : Result F
  pub recovery_row : Result ℕ
  pub probe_latency_row : Result (F × F)

pub data Query : Type 0 where
  block_lag_query peer_count_query disk_usage_query recovery_query probe_latency_query : Query

abbrev pub queries : List Query
queries =
    block_lag_query ∷ peer_count_query ∷ disk_usage_query ∷ recovery_query ∷ probe_latency_query
    ∷ []

-- The float32 nearest to 0.1, which is 13421773 / 2^27.
abbrev pub noise_floor : ℕ
noise_floor = 13_421_773 * 2 ^ 122

module _ {F : Type 0} (s : ScoreFloats F) where
  abbrev number : String → F
  number text = s.float64.literal text

  -- A score that is not stamped yet.
  abbrev unstamped : String → F → Formatted → AnomalyScore
  unstamped type_ score detail = record {
    type_ = type_;
    score_units = s.to_float32 score;
    detail = s.render detail;
    detected_at = 0;
  }

  unfoldable pub block_lag_score : F → F → F → F
  block_lag_score mean std current =
      if s.greater std (number "0")
      then (let z = s.float64.div (s.float64.sub current mean) std in
          s.min (number "1.0") (s.max (number "0.0") (s.float64.div z (number "3.0"))))
      else if s.greater current (number "10")
      then number "0.5"
      else number "0.0"

  unfoldable pub block_lag_anomaly : Result (F × F × F) → Result AnomalyScore
  unfolding block_lag_score
  block_lag_anomaly row = context "block-lag anomaly query: %w" row >>= (λ r.
      let (mean, std, current) = r in
      let shown = s.float64.shown current ∷ s.float64.shown mean ∷ s.float64.shown std ∷ [] in
      ok (
        unstamped "block-lag" (block_lag_score mean std current)
          (sprintf "current=%.0f mean=%.1f std=%.1f" shown)))

  unfoldable pub peer_count_score : F → F → F
  peer_count_score mean min_peers =
      if s.greater mean (number "0")
      then (let drop_ = s.float64.div (s.float64.sub mean min_peers) mean in
          s.min (number "1.0") (s.max (number "0.0") drop_))
      else if s.equal min_peers (number "0")
      then number "0.8"
      else number "0.0"

  unfoldable pub peer_count_anomaly : Result (F × F) → Result AnomalyScore
  unfolding peer_count_score
  peer_count_anomaly row = context "peer-count anomaly query: %w" row >>= (λ r.
      let (mean, min_peers) = r in
      let shown = s.float64.shown min_peers ∷ s.float64.shown mean ∷ [] in
      ok (
        unstamped "peer-count" (peer_count_score mean min_peers)
          (sprintf "min=%.0f rolling_mean=%.1f" shown)))

  -- A score of 0 up to a bound, and a ramp above it.
  abbrev ramp : F → String → String → F
  ramp value bound width =
      if s.greater value (number bound)
      then s.min (number "1.0") (s.float64.div (s.float64.sub value (number bound)) (number width))
      else number "0.0"

  unfoldable pub disk_usage_anomaly : Result F → Result AnomalyScore
  disk_usage_anomaly row = context "disk-usage anomaly query: %w" row >>= (λ pct. ok (
      unstamped "disk-usage" (ramp pct "70" "30")
        (sprintf "max_usage_pct=%.0f" (s.float64.shown pct ∷ []))))

  unfoldable pub recovery_frequency_anomaly : Result ℕ → Result AnomalyScore
  recovery_frequency_anomaly row = context "recovery-frequency anomaly query: %w" row >>= (λ count.
      let score = s.float64.div (s.float64.of_int (pos count)) (number "5.0") in
      ok (
        unstamped "recovery-frequency" (s.min (number "1.0") score)
          (sprintf "recoveries_last_hour=%d" (nat count ∷ []))))

  unfoldable pub probe_latency_anomaly : Result (F × F) → Result AnomalyScore
  probe_latency_anomaly row = context "probe-latency anomaly query: %w" row >>= (λ r.
      let (mean, p95) = r in
      let shown = s.float64.shown mean ∷ s.float64.shown p95 ∷ [] in
      ok (
        unstamped "probe-latency" (ramp p95 "1000" "4000")
          (sprintf "mean_ms=%.0f p95_ms=%.0f" shown)))

  module _ (t : Telemetry F) where
    unfoldable pub run_query : Query → Result AnomalyScore
    unfolding block_lag_anomaly peer_count_anomaly disk_usage_anomaly recovery_frequency_anomaly
        probe_latency_anomaly
    run_query block_lag_query = block_lag_anomaly t.block_lag_row
    run_query peer_count_query = peer_count_anomaly t.peer_count_row
    run_query disk_usage_query = disk_usage_anomaly t.disk_usage_row
    run_query recovery_query = recovery_frequency_anomaly t.recovery_row
    run_query probe_latency_query = probe_latency_anomaly t.probe_latency_row

    -- One result that is received: what it adds to the scores.
    unfoldable pub kept_score : ℕ → Result AnomalyScore → List AnomalyScore
    kept_score now (err _) = []
    kept_score now (ok score) =
        if ltb noise_floor score.score_units then record score { detected_at = now } ∷ [] else []

    -- The loop that receives: `arrivals` are the queries whose results the select takes, in order, and
    -- when there are no more of them the deadline is what it takes.
    unfoldable pub receive_results : ℕ → ℕ → List Query → List AnomalyScore → List AnomalyScore
    unfolding run_query kept_score
    receive_results now zero arrivals scores = scores
    receive_results now (suc left) [] scores = scores
    receive_results now (suc left) (q ∷ rest) scores =
        receive_results now left rest (scores ++ kept_score now (run_query q))

    unfoldable pub evaluate_node : ℕ → List Query → Result (List AnomalyScore)
    unfolding receive_results
    evaluate_node now arrivals = ok (receive_results now 5 arrivals [])
