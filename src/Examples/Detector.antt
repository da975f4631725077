-- ===== src/Examples/Detector.antt =====
-- A detector of which two queries answer, over floats that are whole numbers of thousandths.
use tao_node_guardian.Base.{
  ℕ, ◌+◌, ◌-◌, ◌*◌, ◌/◌, ◌^◌, ◌∷◌, [], ◌≡◌, List, leb, ltb, ◌==◌, str_eq, if◌then◌else◌,
}
use tao_node_guardian.Base.Int.{pos_part}
use tao_node_guardian.Base.Errors.{ok, err, plain}
use tao_node_guardian.Base.Format.{nat}
use mathlib.Core.List.{Perm}
use mathlib.Core.List.Perm
use tao_node_guardian.Controller.Cost.{Float64}
use tao_node_guardian.Controller.Health.{AnomalyScore}
use tao_node_guardian.Analytics.Detector.{
  ScoreFloats, Telemetry, Query, block_lag_query, peer_count_query, disk_usage_query,
  recovery_query, probe_latency_query, queries, evaluate_node,
}
use tao_node_guardian.Analytics.Detector.Arrivals.{scores_of, evaluate_node_perm}

abbrev pub thousandths : Float64 ℕ
thousandths = record {
  literal = λ s. if str_eq s "5.0" then 5000 else if str_eq s "1.0" then 1000 else 0;
  of_int = λ z. pos_part z * 1000;
  add = λ a b. a + b;
  sub = λ a b. a - b;
  mul = λ a b. a * b / 1000;
  div = λ a b. a * 1000 / b;
  at_least = λ a b. leb b a;
  shown = nat;
}

abbrev pub score_floats : ScoreFloats ℕ
score_floats = record {
  float64 = thousandths;
  greater = λ a b. ltb b a;
  equal = λ a b. a == b;
  min = λ a b. if leb a b then a else b;
  max = λ a b. if leb a b then b else a;
  to_float32 = λ a. a * 2 ^ 149 / 1000;
  render = λ f. f.format;
}

abbrev pub sample_rows : Telemetry ℕ
sample_rows = record {
  block_lag_row = err (plain "no sample_rows");
  peer_count_row = ok (8000, 2000);
  disk_usage_row = err (plain "timeout");
  recovery_row = ok 1;
  probe_latency_row = err (plain "timeout");
}

abbrev arrivals : List Query
arrivals =
    peer_count_query ∷ block_lag_query ∷ disk_usage_query ∷ recovery_query ∷ probe_latency_query
    ∷ []

evaluate_node_perm_example :
    (scores : List AnomalyScore) × (evaluate_node score_floats sample_rows 60 arrivals ≡ ok scores)
    × Perm scores (scores_of score_floats sample_rows 60 queries)
evaluate_node_perm_example = evaluate_node_perm score_floats sample_rows 60 arrivals (
    Perm.swap block_lag_query peer_count_query
      (disk_usage_query ∷ recovery_query ∷ probe_latency_query ∷ []))
