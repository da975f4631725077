-- ===== src/Analytics/BatchWriter/Shutdown.antt =====
-- The last flushes of `flushLoop` in internal/analytics/flush.go, which use the cancelled context.
use tao_node_guardian.Base.{
  ℕ, ◌≡◌, refl, ap, ◌∙◌, String, List, [], ◌∷◌, true, Bool-cases, inl, inr,
}
use tao_node_guardian.Base.Errors.{Error, Result, err}
use tao_node_guardian.Analytics.Rows.{Cell, Driver, flush_batch}
use tao_node_guardian.Analytics.BatchWriter.{
  Table, has_room, push, flushed, flush_rows, do_flush, receive, drain, finish, Step, pushes,
  cancels, receives, ticks, begins_drain, drains, finishes, Steps, stays, goes,
}

-- The driver makes no call to the database for a context that is cancelled, and returns an error.
pub record RefusesCancelled {F B W : Type 0} (conn : Driver F B W) : Type 0 where
  pub refusal : Error
  pub refused :
      (statement : String) (w : W) → conn.prepare_batch true statement w ≡ (err refusal, w)

module _ {F B W T : Type 0} (conn : Driver F B W) (refuses : RefusesCancelled conn)
    (statement : String) (columns : T → List (Cell F)) where
  -- Cancelled, with this database and this many rows written.
  pub record Spent (w : W) (n : ℕ) (s : Table T W) : Type 0 where
    pub is_cancelled : s.cancelled ≡ true
    pub same_world : s.world ≡ w
    pub same_count : s.rows_written ≡ n

  push-Spent : {w : W} {n : ℕ} (row : T) (s : Table T W) → Spent w n s → Spent w n (push row s)
  unfolding push
  push-Spent row s v = elim (Bool-cases (has_room s)) [
    | inl room ↦ rw room (record {
      is_cancelled = v.is_cancelled;
      same_world = v.same_world;
      same_count = v.same_count;
    })
    | inr full ↦ rw full (record {
      is_cancelled = v.is_cancelled;
      same_world = v.same_world;
      same_count = v.same_count;
    })
  ]

  flush_refused :
      (rows : List T) (w : W)
      → flush_batch conn statement columns true rows w ≡ (err refuses.refusal, w)
  unfolding flush_batch
  flush_refused rows w =
      rw (refuses.refused statement w, flush_batch)
        (ap (λ p. (err refuses.refusal, p.1)) (refuses.refused statement w))

  refused-Spent :
      {w : W} {n : ℕ} (rows : List T) (s : Table T W) (answer : Result (Unit {0}) × W)
      → answer ≡ (err refuses.refusal, s.world)
      → Spent w n s
      → Spent w n (flushed s rows answer.0 answer.1)
  refused-Spent rows s answer e v = rw e (record {
    is_cancelled = v.is_cancelled;
    same_world = v.same_world;
    same_count = v.same_count;
  })

  flush-Spent :
      {w : W} {n : ℕ} (rows : List T) (s : Table T W)
      → Spent w n s
      → Spent w n (flush_rows (flush_batch conn statement columns) rows s)
  flush-Spent [] s v = v
  flush-Spent (row ∷ rows) s v =
      refused-Spent (row ∷ rows) s _
        (ap (λ c. flush_batch conn statement columns c (row ∷ rows) s.world) v.is_cancelled
          ∙ flush_refused (row ∷ rows) s.world)
        v

  Step-Spent :
      {w : W} {n : ℕ} {s t : Table T W} {a : List T}
      → Step (flush_batch conn statement columns) s a t
      → Spent w n s
      → Spent w n t
  unfolding receive drain finish do_flush
  Step-Spent (pushes row s) v = push-Spent row s v
  Step-Spent (cancels s) v = record {
    is_cancelled = refl;
    same_world = v.same_world;
    same_count = v.same_count;
  }
  Step-Spent (receives row rest s _ _) v = record {
    is_cancelled = v.is_cancelled;
    same_world = v.same_world;
    same_count = v.same_count;
  }
  Step-Spent (ticks s _) v = flush-Spent s.buf s v
  Step-Spent (begins_drain s _ _) v = record {
    is_cancelled = v.is_cancelled;
    same_world = v.same_world;
    same_count = v.same_count;
  }
  Step-Spent (drains row rest s _ _) v = record {
    is_cancelled = v.is_cancelled;
    same_world = v.same_world;
    same_count = v.same_count;
  }
  Step-Spent (finishes s _ _) v =
      let u = flush-Spent s.buf s v in
      record { is_cancelled = u.is_cancelled; same_world = u.same_world; same_count = u.same_count }

  Steps-Spent :
      {w : W} {n : ℕ} (s t : Table T W) (a : List T)
      → Steps (flush_batch conn statement columns) s a t
      → Spent w n s
      → Spent w n t
  Steps-Spent s t a stays v = v
  Steps-Spent s u ab (goes a b t _ before last) v = Step-Spent last (Steps-Spent s t a before v)

  -- If the driver refuses a cancelled context, then from the cancellation on no interleaving changes the
  -- database or writes a row: whatever was in the channel and the buffer, the last flush loses it.
  pub cancelled-Steps :
      (s t : Table T W) (a : List T)
      → s.cancelled ≡ true
      → Steps (flush_batch conn statement columns) s a t
      → (t.world ≡ s.world) × (t.rows_written ≡ s.rows_written)
  cancelled-Steps s t a c steps =
      let v =
        Steps-Spent s t a steps
          (record { is_cancelled = c; same_world = refl; same_count = refl }) in
      (v.same_world, v.same_count)
