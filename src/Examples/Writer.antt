-- ===== src/Examples/Writer.antt =====
-- A table whose rows go to a database that is the list of its inserted rows, and a shutdown.
use tao_node_guardian.Base.{ℕ, ◌≡◌, refl, List, [], ◌∷◌, ◌++◌, true, if◌then◌else◌}
use tao_node_guardian.Base.Int.{pos}
use tao_node_guardian.Base.Errors.{plain, ok, err}
use tao_node_guardian.Analytics.Rows.{AnomalyRow, Cell, Driver, anomaly_columns, flush_batch}
use tao_node_guardian.Analytics.BatchWriter.{
  Table, Flush, Mode, new_table, push, receive, drain, do_flush, finish, pushes, receives, ticks,
  begins_drain, drains, finishes, Steps, stays, goes,
}
use tao_node_guardian.Analytics.BatchWriter.Order.{recording, Steps-seen}
use tao_node_guardian.Analytics.BatchWriter.Bounds.{WellFormed, Steps-WellFormed}
use tao_node_guardian.Analytics.BatchWriter.Shutdown.{RefusesCancelled, cancelled-Steps}

abbrev Rows : Type 0
Rows = List (List (Cell ℕ))

abbrev conn : Driver ℕ Rows Rows
conn = record {
  prepare_batch =
      λ cancelled statement w. (if cancelled then err (plain "context canceled") else ok [], w);
  append = λ cells batch. ok (batch ++ cells ∷ []);
  send = λ batch w. (ok tt, w ++ batch);
}

refuses : RefusesCancelled conn
refuses = record { refusal = plain "context canceled"; refused = λ statement w. refl }

abbrev row : AnomalyRow ℕ
row = record {
  timestamp = 5;
  namespace_ = "tao";
  node_name = "alpha";
  network = "mainnet";
  subnet_id = pos 1;
  anomaly_type = "sync_drift";
  score = 3;
  detail = "";
}

abbrev flush : Flush (AnomalyRow ℕ) Rows
flush = flush_batch conn "INSERT INTO anomaly_scores" (anomaly_columns conn)

abbrev pushed : {W : Type 0} → W → Table (AnomalyRow ℕ) W
pushed w = push row (new_table w)

abbrev after : {W : Type 0} → Table (AnomalyRow ℕ) W → Table (AnomalyRow ℕ) W
after s = receive row [] s

one_row :
    Steps
      (recording flush)
      (new_table ([], []))
      (row ∷ [])
      (do_flush (recording flush) (after (pushed ([], []))))
unfolding new_table push receive
one_row =
    goes (row ∷ []) [] (after (pushed ([], []))) _
      (goes (row ∷ []) [] (pushed ([], [])) _
        (goes [] (row ∷ []) (new_table ([], [])) _ stays (pushes row (new_table ([], []))))
        (receives row [] (pushed ([], [])) refl refl))
      (ticks (after (pushed ([], []))) refl)

Steps-seen_example :
    let t = do_flush (recording flush) (after (pushed ([], []))) in
    t.world.1 ++ (t.buf ++ t.channel) ≡ row ∷ []
Steps-seen_example =
    Steps-seen flush [] (do_flush (recording flush) (after (pushed ([], [])))) (row ∷ []) one_row

one_step : Steps flush (new_table []) (row ∷ []) (pushed [])
unfolding new_table push
one_step = goes [] (row ∷ []) (new_table []) _ stays (pushes row (new_table []))

Steps-WellFormed_example : WellFormed {W = Rows} (pushed [])
Steps-WellFormed_example = Steps-WellFormed flush [] (pushed []) (row ∷ []) one_step

-- One row in the channel when the context is cancelled.
abbrev stopping : Table (AnomalyRow ℕ) Rows
stopping = record (pushed []) { cancelled = true }

abbrev drained : Table (AnomalyRow ℕ) Rows
drained = drain row [] (record stopping { mode = Mode.draining })

shutdown : Steps flush stopping [] (finish flush drained)
unfolding new_table push drain
shutdown =
    goes [] [] drained _
      (goes [] [] (record stopping { mode = Mode.draining }) _
        (goes [] [] stopping _ stays (begins_drain stopping refl refl))
        (drains row [] (record stopping { mode = Mode.draining }) refl refl))
      (finishes drained refl refl)

cancelled-Steps_example :
    ((finish flush drained).world ≡ []) × ((finish flush drained).rows_written ≡ 0)
unfolding new_table push
cancelled-Steps_example =
    cancelled-Steps conn refuses "INSERT INTO anomaly_scores" (anomaly_columns conn) stopping
      (finish flush drained) [] refl shutdown
