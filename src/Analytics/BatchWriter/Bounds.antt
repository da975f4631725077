-- ===== src/Analytics/BatchWriter/Bounds.antt =====
-- What holds of a table's channel, buffer and loop, of internal/analytics/batch_writer.go and flush.go, at
-- all times.
use tao_node_guardian.Base.{
  ◌≤◌, ◌≡◌, ◌⊎◌, refl, sym, ap, ◌∙◌, subst, List, [], ◌∷◌, true, Bool-cases, inl, inr, length,
  length-append, ltb→lt, arith,
}
use tao_node_guardian.Base.Errors.{Result, ok, err}
use tao_node_guardian.Analytics.BatchWriter.{
  Table, Flush, selecting, draining, stopped, default_channel_size, new_table, has_room, push,
  flushed, flush_rows, do_flush, receive, drain, finish, Step, pushes, cancels, receives, ticks,
  begins_drain, drains, finishes, Steps, stays, goes,
}

shorter :
    {T : Type 0} (row : T) (rest channel : List T)
    → channel ≡ row ∷ rest
    → length channel ≤ default_channel_size
    → length rest ≤ default_channel_size
shorter row rest channel e h = omega (arith, ap length e)

module _ {T W : Type 0} where
  -- The channel is never longer than its size, the loop leaves the select only once the context is
  -- cancelled, and it returns with an empty buffer.
  pub record WellFormed (s : Table T W) : Type 0 where
    pub within : length s.channel ≤ default_channel_size
    pub left : (s.mode ≡ selecting) ⊎ (s.cancelled ≡ true)
    pub emptied : s.mode ≡ stopped → s.buf ≡ []

  push-WellFormed : (row : T) (s : Table T W) → WellFormed s → WellFormed (push row s)
  unfolding push
  push-WellFormed row s v = elim (Bool-cases (has_room s)) [
    | inl room ↦ rw room (record {
      within = omega (
        arith,
        length-append s.channel (row ∷ []),
        ltb→lt (length s.channel) default_channel_size room,
      );
      left = v.left;
      emptied = v.emptied;
    })
    | inr full ↦ rw full (record { within = v.within; left = v.left; emptied = v.emptied })
  ]

  -- A flush changes neither the channel nor the loop, and empties the buffer.
  flush-kept :
      (flush : Flush T W) (rows : List T) (s : Table T W)
      → s.buf ≡ rows
      → ((flush_rows flush rows s).buf ≡ [])
        × ((flush_rows flush rows s).channel ≡ s.channel)
        × ((flush_rows flush rows s).mode ≡ s.mode)
        × ((flush_rows flush rows s).cancelled ≡ s.cancelled)
  flush-kept flush [] s e = (e, refl, refl, refl)
  flush-kept flush (row ∷ rows) s e = go (flush s.cancelled (row ∷ rows) s.world).0
    where
      go :
          (r : Result (Unit {0}))
          → let t = flushed s (row ∷ rows) r (flush s.cancelled (row ∷ rows) s.world).1 in
            (t.buf ≡ []) × (t.channel ≡ s.channel) × (t.mode ≡ s.mode) × (t.cancelled ≡ s.cancelled)
      go (ok _) = (refl, refl, refl, refl)
      go (err _) = (refl, refl, refl, refl)

  Step-WellFormed :
      (flush : Flush T W) {s t : Table T W} {a : List T}
      → Step flush s a t
      → WellFormed s
      → WellFormed t
  unfolding receive drain finish do_flush
  Step-WellFormed flush (pushes row s) v = push-WellFormed row s v
  Step-WellFormed flush (cancels s) v = record {
    within = v.within;
    left = inr refl;
    emptied = v.emptied;
  }
  Step-WellFormed flush (receives row rest s m e) v = record {
    within = shorter row rest s.channel e v.within;
    left = v.left;
    emptied = λ h. absurd (cc);
  }
  Step-WellFormed flush (ticks s m) v =
      let (b, c, k, x) = flush-kept flush s.buf s refl in
      record {
        within = subst (λ l. length l ≤ default_channel_size) (sym c) v.within;
        left = inl (k ∙ m);
        emptied = λ h. b;
      }
  Step-WellFormed flush (begins_drain s m c) v = record {
    within = v.within;
    left = inr c;
    emptied = λ h. absurd (cc);
  }
  Step-WellFormed flush (drains row rest s m e) v = record {
    within = shorter row rest s.channel e v.within;
    left = v.left;
    emptied = λ h. absurd (cc);
  }
  Step-WellFormed flush (finishes s m e) v =
      let (b, c, k, x) = flush-kept flush s.buf s refl in
      record {
        within = subst (λ l. length l ≤ default_channel_size) (sym c) v.within;
        left = inr (x ∙ was_cancelled s m v.left);
        emptied = λ h. b;
      }
    where
      was_cancelled :
          (s : Table T W)
          → s.mode ≡ draining
          → (s.mode ≡ selecting) ⊎ (s.cancelled ≡ true)
          → s.cancelled ≡ true
      was_cancelled s m (inl h) = absurd (cc)
      was_cancelled s m (inr h) = h

  -- In every interleaving from a new table on, the channel holds at most 4096 rows, the loop has left the
  -- select only if the context was cancelled, and once it has returned its buffer is empty.
  pub Steps-WellFormed :
      (flush : Flush T W) (w : W) (t : Table T W) (a : List T)
      → Steps flush (new_table w) a t
      → WellFormed t
  unfolding new_table
  Steps-WellFormed flush w t a stays = record {
    within = omega arith;
    left = inl refl;
    emptied = λ h. refl;
  }
  Steps-WellFormed flush w u ab (goes a b t _ before last) =
      Step-WellFormed flush last (Steps-WellFormed flush w t a before)
