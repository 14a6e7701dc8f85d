-- ===== src/Ingestion/Batch.antt =====
-- The size of `batch` in apps/ingestion/main.py.
use dcops.Base.{
  ℕ, ◌≤◌, ◌<◌, ◌≡◌, inl, inr, Bool, Bool-cases, Option-cases, false, List, [], ◌∷◌, ◌++◌, length,
  length-append, arith, is_some, leb,
}
use dcops.Value.{Dict}
use dcops.Ingestion.Writer.{
  Writer, empty_writer, Move, arrives, wakes, consumer_ends, ticker_ends, consume, tick, move, run,
}

-- The consumer waits for an event with room in the batch, and flushes at the limit.
record Bounded (flush_max : ℕ) (w : Writer) : Type 0 where
  limit : length w.batch ≤ flush_max
  room : is_some w.consumer ≡ false → length w.batch < flush_max

module _ (flush_max : ℕ) where
  Bounded-consume :
      (e : Dict) (w : Writer)
      → length w.batch < flush_max
      → is_some w.consumer ≡ false
      → Bounded flush_max (consume flush_max e w)
  unfolding consume
  Bounded-consume e w small idle = elim (Bool-cases (leb flush_max (length (w.batch ++ e ∷ [])))) [
    | inl full ↦ simp full (record {
      limit = omega (arith, length-append w.batch (e ∷ []));
      room = λ h. ground (arith, h);
    })
    | inr below ↦ simp below (record {
      limit = omega (arith, length-append w.batch (e ∷ []));
      room = λ h. ground (arith, below);
    })
  ]

  Bounded-tick : (due : Bool) (w : Writer) → Bounded flush_max w → Bounded flush_max (tick due w)
  unfolding tick
  Bounded-tick due w b = ground (arith, b.limit, b.room)

  Bounded-move :
      (m : Move) (w : Writer)
      → 0 < flush_max
      → Bounded flush_max w
      → Bounded flush_max (move flush_max m w)
  unfolding move
  Bounded-move (arrives e) w pos b = elim (Bool-cases (is_some w.consumer)) [
    | inl busy ↦ simp (busy, move) b
    | inr idle ↦ simp (idle, move) (Bounded-consume e w (b.room idle) idle)
  ]
  Bounded-move (wakes due) w pos b = elim (Bool-cases (is_some w.ticker)) [
    | inl busy ↦ simp (busy, move) b
    | inr idle ↦ simp (idle, move) (Bounded-tick due w b)
  ]
  Bounded-move (consumer_ends ok) w pos b = elim (Option-cases w.consumer) [
    | inl idle ↦ simp (idle, move) b
    | inr (rows, e) ↦ simp (e, move) (record { limit = omega arith; room = λ h. pos })
  ]
  Bounded-move (ticker_ends ok) w pos b = elim (Option-cases w.ticker) [
    | inl idle ↦ simp (idle, move) b
    | inr (rows, e) ↦ simp (e, move) (record { limit = omega arith; room = λ h. pos })
  ]

  Bounded-run :
      (ms : List Move) (w : Writer)
      → 0 < flush_max
      → Bounded flush_max w
      → Bounded flush_max (run flush_max ms w)
  unfolding run
  Bounded-run [] w pos b = b
  Bounded-run (m ∷ ms) w pos b = Bounded-run ms (move flush_max m w) pos (Bounded-move m w pos b)

  -- With a positive limit, the batch never holds more events than the limit, however the consumer,
  -- the ticker and the database interleave.
  pub run-batch :
      (ms : List Move) → 0 < flush_max → length (run flush_max ms empty_writer).batch ≤ flush_max
  run-batch ms pos =
      (Bounded-run ms empty_writer pos (record { limit = omega arith; room = λ h. pos })).limit
