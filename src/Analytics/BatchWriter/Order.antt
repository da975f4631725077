-- ===== src/Analytics/BatchWriter/Order.antt =====
-- No row is lost, doubled or reordered on its way to the flush function of internal/analytics/flush.go.
use tao_node_guardian.Base.{
  ◌+◌, ◌≡◌, refl, sym, ap, ◌∙◌, List, [], ◌∷◌, ◌++◌, Bool, true, false, if◌then◌else◌,
}
use tao_node_guardian.Base.Errors.{Result, ok, err}
use tao_node_guardian.Analytics.BatchWriter.{
  Table, Flush, new_table, has_room, push, flushed, flush_rows, do_flush, receive, drain, finish,
  accepted, Step, pushes, cancels, receives, ticks, begins_drain, drains, finishes, Steps, stays,
  goes,
}
use mathlib.Core.List.{append-nil, append_assoc}

module _ {T W : Type 0} (flush : Flush T W) where
  -- The same flush function, with a record of the rows that it was given.
  pub recording : Flush T (W × List T)
  recording c rows (w, handed) = let (r, w') = flush c rows w in (r, (w', handed ++ rows))

  -- The rows that were handed to the flush function, those in the buffer and those in the channel.
  abbrev pub seen : Table T (W × List T) → List T
  seen s = s.world.1 ++ (s.buf ++ s.channel)

  push-seen : (row : T) (s : Table T (W × List T)) → seen (push row s) ≡ seen s ++ accepted row s
  unfolding push
  push-seen row s = go (has_room s)
    where
      joined :
          (handed buf channel more : List T)
          → handed ++ (buf ++ (channel ++ more)) ≡ (handed ++ (buf ++ channel)) ++ more
      joined handed buf channel more =
          ap (λ x. handed ++ x) (sym (append_assoc buf channel more))
          ∙ sym (append_assoc handed (buf ++ channel) more)

      go :
          (b : Bool)
          → seen (
              if b
              then record s { channel = s.channel ++ row ∷ [] }
              else record s { flush_errors = s.flush_errors + 1 })
            ≡ seen s ++ (if b then row ∷ [] else [])
      go true = joined s.world.1 s.buf s.channel (row ∷ [])
      go false = sym (append-nil (seen s))

  -- A row that goes from the channel to the buffer.
  moved-seen :
      (row : T) (rest : List T) (s : Table T (W × List T))
      → s.channel ≡ row ∷ rest
      → s.world.1 ++ ((s.buf ++ row ∷ []) ++ rest) ≡ seen s ++ []
  moved-seen row rest s e =
      ap (λ x. s.world.1 ++ x) (append_assoc s.buf (row ∷ []) rest ∙ ap (λ x. s.buf ++ x) (sym e))
      ∙ sym (append-nil (seen s))

  flushed-seen :
      (s : Table T (W × List T)) (rows : List T) (r : Result (Unit {0})) (w : W)
      → seen (flushed s rows r (w, s.world.1 ++ rows)) ≡ s.world.1 ++ (rows ++ s.channel)
  flushed-seen s rows (ok _) w = append_assoc s.world.1 rows s.channel
  flushed-seen s rows (err _) w = append_assoc s.world.1 rows s.channel

  flush_rows-seen :
      (rows : List T) (s : Table T (W × List T))
      → s.buf ≡ rows
      → seen (flush_rows recording rows s) ≡ seen s
  unfolding recording
  flush_rows-seen [] s e = refl
  flush_rows-seen (row ∷ rows) s e =
      flushed-seen s (row ∷ rows) (flush s.cancelled (row ∷ rows) s.world.0).0
        (flush s.cancelled (row ∷ rows) s.world.0).1
      ∙ ap (λ b. s.world.1 ++ (b ++ s.channel)) (sym e)

  flush-seen : (s : Table T (W × List T)) → seen (do_flush recording s) ≡ seen s ++ []
  unfolding do_flush
  flush-seen s = flush_rows-seen s.buf s refl ∙ sym (append-nil (seen s))

  Step-seen :
      {s t : Table T (W × List T)} {a : List T} → Step recording s a t → seen t ≡ seen s ++ a
  unfolding receive drain finish
  Step-seen (pushes row s) = push-seen row s
  Step-seen (cancels s) = sym (append-nil (seen s))
  Step-seen (receives row rest s _ e) = moved-seen row rest s e
  Step-seen (ticks s _) = flush-seen s
  Step-seen (begins_drain s _ _) = sym (append-nil (seen s))
  Step-seen (drains row rest s _ e) = moved-seen row rest s e
  Step-seen (finishes s _ _) = flush-seen s

  -- In every interleaving from a new table on, the rows that the channel accepted are, in order, those
  -- that were handed to the flush function, those in the buffer and those in the channel: each is handed
  -- over at most once, and only the flush function can lose it.
  pub Steps-seen :
      (w : W) (t : Table T (W × List T)) (a : List T)
      → Steps recording (new_table (w, [])) a t
      → t.world.1 ++ (t.buf ++ t.channel) ≡ a
  unfolding new_table
  Steps-seen w t a stays = refl
  Steps-seen w u ab (goes a b t _ before last) =
      Step-seen last ∙ ap (λ x. x ++ b) (Steps-seen w t a before)
