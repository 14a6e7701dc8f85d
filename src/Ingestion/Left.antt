-- ===== src/Ingestion/Left.antt =====
-- What the writer of apps/ingestion/main.py can still write, in each phase of its life.
use dcops.Base.{
  ℕ, ◌+◌, ◌≤◌, ◌≡◌, refl, inl, inr, Bool, Bool-cases, Option, Option-cases, not, ◌&&◌, none, some,
  List, [], ◌∷◌, ◌++◌, map, length, arith, is_some, leb,
}
use dcops.Value.{Dict}
use dcops.Ingestion.Writer.{
  Row, row, Writer, Move, arrives, wakes, consumer_ends, ticker_ends, no_events, consume, tick,
  move,
}
use dcops.Ingestion.Rows.{taken, count, held, weight, held_empty, count-snoc, count-insert}
use dcops.Ingestion.Service.{Phase, working, crashed, cancelled, last_flush, committed, interrupted}

module _ (p : Row → Bool) where
  -- How many rows of the batch satisfy the test.
  abbrev pub batched : Writer → ℕ
  batched w = count p (map row w.batch)

  -- What is written or can still be written. A working writer may write its batch once more in its
  -- last flush.
  abbrev pub left : Phase → Writer → ℕ
  left working w = weight p w + batched w
  left crashed w = weight p w
  left cancelled w = count p w.table + held p w.consumer 0 + held p w.ticker 0

  batched-tick : (due : Bool) (w : Writer) → batched (tick due w) ≡ batched w
  unfolding tick
  batched-tick due w = elim (Bool-cases (not (no_events w.batch) && due)) [
    | inl go ↦ simp go refl
    | inr stay ↦ simp stay refl
  ]

  batched-consume :
      (flush_max : ℕ) (e : Dict) (w : Writer)
      → batched (consume flush_max e w) ≤ batched w + count p (row e ∷ [])
  unfolding consume
  batched-consume flush_max e w = elim (Bool-cases (leb flush_max (length (w.batch ++ e ∷ [])))) [
    | inl full ↦ simp full (omega (arith, count-snoc p w.batch e))
    | inr below ↦ simp below (omega (arith, count-snoc p w.batch e))
  ]

  pub batched-move :
      (flush_max : ℕ) (m : Move) (w : Writer)
      → batched (move flush_max m w) ≤ batched w + count p (map row (taken m w))
  unfolding move taken
  batched-move flush_max (arrives e) w = elim (Bool-cases (is_some w.consumer)) [
    | inl busy ↦ rw busy (omega arith)
    | inr idle ↦ rw idle (batched-consume flush_max e w)
  ]
  batched-move flush_max (wakes due) w = elim (Bool-cases (is_some w.ticker)) [
    | inl busy ↦ rw busy (omega arith)
    | inr idle ↦ rw idle (omega (arith, batched-tick due w))
  ]
  batched-move flush_max (consumer_ends stored) w = elim (Option-cases w.consumer) [
    | inl idle ↦ simp (idle, move) (omega arith)
    | inr (rows, busy) ↦ simp (busy, move) (omega arith)
  ]
  batched-move flush_max (ticker_ends stored) w = elim (Option-cases w.ticker) [
    | inl idle ↦ simp (idle, move) (omega arith)
    | inr (rows, busy) ↦ simp (busy, move) (omega arith)
  ]

  -- The last flush has one more copy of the batch to write.
  pub left-last_flush :
      (w : Writer)
      → w.consumer ≡ none
      → left cancelled (last_flush w) ≤ left cancelled w + batched w
  unfolding last_flush held
  left-last_flush w idle = elim (Bool-cases (no_events w.batch)) [
    | inl empty ↦ rw empty (omega arith)
    | inr some_events ↦ rw some_events (omega arith)
  ]

  pub weight-last_flush : (w : Writer) → w.consumer ≡ none → weight p (last_flush w) ≡ weight p w
  unfolding last_flush held weight
  weight-last_flush w idle = elim (Bool-cases (no_events w.batch)) [
    | inl empty ↦ rw empty refl
    | inr some_events ↦ simp (some_events, idle) (omega arith)
  ]

  count-committed :
      (done : Bool) (o : Option (List Row)) (table : List Row)
      → count p (committed done o table) ≤ count p table + held p o 0
  unfolding held
  count-committed done none table = omega arith
  count-committed done (some rows) table = count-insert p done rows table

  -- What the coroutines were inserting is in the table or is lost.
  pub left-interrupted :
      (c t : Bool) (w : Writer) → left cancelled (interrupted c t w) ≤ left cancelled w
  left-interrupted c t w =
      unfold held in
      omega (
        arith,
        count-committed c w.consumer w.table,
        count-committed t w.ticker (committed c w.consumer w.table),
      )

  pub left-weight : (w : Writer) → left cancelled w ≤ weight p w
  unfolding weight
  left-weight w =
      omega (arith, held_empty p w.consumer (batched w), held_empty p w.ticker (batched w))

  pub left-consumer_ends :
      (flush_max : ℕ) (stored : Bool) (w : Writer)
      → left cancelled (move flush_max (consumer_ends stored) w) ≤ left cancelled w
  unfolding move
  left-consumer_ends flush_max stored w = elim (Option-cases w.consumer) [
    | inl idle ↦ simp (idle, move) (unfold held in omega arith)
    | inr (rows, busy) ↦
        simp (busy, move) (unfold held in omega (arith, count-insert p stored rows w.table))
  ]
