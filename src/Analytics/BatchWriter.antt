-- ===== src/Analytics/BatchWriter.antt =====
-- internal/analytics/batch_writer.go and `flushLoop` of flush.go: the way of the rows of one table, from
-- the non-blocking push through the channel and the buffer to the flush function. The goroutines that
-- push and the loop interleave, so that their steps are a relation.
pub mod Order
pub mod Bounds
pub mod Shutdown
use tao_node_guardian.Base.{
  ℕ, ◌+◌, ◌≡◌, List, [], ◌∷◌, ◌++◌, length, Bool, true, false, ltb, if◌then◌else◌,
}
use tao_node_guardian.Base.Errors.{Result, ok, err}

abbrev pub default_channel_size : ℕ
default_channel_size = 4096

-- Where the loop is: in the select, in the inner loop after `ctx.Done()`, or returned.
pub data Mode : Type 0 where
  selecting draining stopped : Mode

-- `cancelled` is the context's state. `flush_errors`, `rows_written`, `flushes` (the count of observed
-- durations) and `backlog` are the metrics of the table; `world` is the database.
pub record Table (T W : Type 0) : Type 0 where
  pub channel : List T
  pub buf : List T
  pub mode : Mode
  pub cancelled : Bool
  pub flush_errors : ℕ
  pub rows_written : ℕ
  pub flushes : ℕ
  pub backlog : ℕ
  pub world : W

-- A flush function: is the context cancelled, and which rows.
abbrev pub Flush : Type 0 → Type 0 → Type 0
Flush T W = Bool → List T → W → Result (Unit {0}) × W

module _ {T W : Type 0} where
  unfoldable pub new_table : W → Table T W
  new_table w = record {
    channel = [];
    buf = [];
    mode = selecting;
    cancelled = false;
    flush_errors = 0;
    rows_written = 0;
    flushes = 0;
    backlog = 0;
    world = w;
  }

  abbrev pub has_room : Table T W → Bool
  has_room s = ltb (length s.channel) default_channel_size

  -- Each `Push*` method.
  unfoldable pub push : T → Table T W → Table T W
  push row s =
      if has_room s
      then record s { channel = s.channel ++ row ∷ [] }
      else record s { flush_errors = s.flush_errors + 1 }

  abbrev pub flushed : Table T W → List T → Result (Unit {0}) → W → Table T W
  flushed s rows (ok _) w = record s {
    buf = [];
    world = w;
    flushes = s.flushes + 1;
    rows_written = s.rows_written + length rows;
  }
  flushed s rows (err _) w = record s { buf = []; world = w; flush_errors = s.flush_errors + 1 }

  abbrev pub flush_rows : Flush T W → List T → Table T W → Table T W
  flush_rows flush [] s = s
  flush_rows flush (row ∷ rows) s =
      let (r, w) = flush s.cancelled (row ∷ rows) s.world in flushed s (row ∷ rows) r w

  -- `doFlush`.
  unfoldable pub do_flush : Flush T W → Table T W → Table T W
  do_flush flush s = flush_rows flush s.buf s

  -- A row from the channel, in the select.
  unfoldable pub receive : T → List T → Table T W → Table T W
  receive row rest s = record s { channel = rest; buf = s.buf ++ row ∷ []; backlog = length rest }

  -- And in the inner loop.
  unfoldable pub drain : T → List T → Table T W → Table T W
  drain row rest s = record s { channel = rest; buf = s.buf ++ row ∷ [] }

  unfoldable pub finish : Flush T W → Table T W → Table T W
  unfolding do_flush
  finish flush s = record (do_flush flush s) { mode = stopped }

  -- The rows that a push gets into the channel.
  abbrev pub accepted : T → Table T W → List T
  accepted row s = if has_room s then row ∷ [] else []

  -- One step: a push by any goroutine at any time, the cancellation, or a step of the loop. After the
  -- cancellation the select may still choose a row or the ticker. The index in the middle is what the
  -- channel accepts.
  pub data Step (flush : Flush T W) : Table T W → List T → Table T W → Type 0 where
    pushes : (row : T) (s : Table T W) → Step flush s (accepted row s) (push row s)
    cancels : (s : Table T W) → Step flush s [] (record s { cancelled = true })
    receives :
        (row : T) (rest : List T) (s : Table T W)
        → s.mode ≡ selecting
        → s.channel ≡ row ∷ rest
        → Step flush s [] (receive row rest s)
    ticks : (s : Table T W) → s.mode ≡ selecting → Step flush s [] (do_flush flush s)
    begins_drain :
        (s : Table T W)
        → s.mode ≡ selecting
        → s.cancelled ≡ true
        → Step flush s [] (record s { mode = draining })
    drains :
        (row : T) (rest : List T) (s : Table T W)
        → s.mode ≡ draining
        → s.channel ≡ row ∷ rest
        → Step flush s [] (drain row rest s)
    finishes :
        (s : Table T W) → s.mode ≡ draining → s.channel ≡ [] → Step flush s [] (finish flush s)

  pub data Steps (flush : Flush T W) (s : Table T W) : List T → Table T W → Type 0 where
    stays : Steps flush s [] s
    goes :
        (a b : List T) (t u : Table T W)
        → Steps flush s a t
        → Step flush t b u
        → Steps flush s (a ++ b) u
