-- ===== src/Ingestion/Stop.antt =====
-- What becomes of the events when the writer of apps/ingestion/main.py ends.
use dcops.Base.{
  ℕ, ◌+◌, ◌*◌, ◌≤◌, ap, inl, inr, refl, Bool, Option-cases, List, [], ◌∷◌, ◌++◌, map, map-append,
  arith, if◌then◌else◌,
}
use dcops.Base.Result.{Result, ok, err}
use dcops.Value.{Dict, Items}
use dcops.Ingestion.Writer.{
  Row, row, Writer, Move, arrives, wakes, consumer_ends, ticker_ends, move,
}
use dcops.Ingestion.Rows.{taken, count, held, weight, weight-move, count-append}
use dcops.Ingestion.Service.{
  Phase, working, crashed, cancelled, Service, start, Step, moves, delivers, breaks, cancels,
  is_live, crash, interrupted, cancel, dict_of, take_in, step, serve,
}
use dcops.Ingestion.Left.{
  batched-move, left, left-last_flush, weight-last_flush, left-interrupted, left-weight,
  left-consumer_ends,
}

-- The event that the consumer takes.
abbrev pub taken_live : Move → Service → List Dict
taken_live m s = if is_live s.phase m then taken m s.writer else []

module _ (p : Row → Bool) where
  -- A step from one state to another in which the given events are taken.
  abbrev Paid : Service → Service → List Dict → Type 0
  Paid s t es = left p t.phase t.writer ≤ left p s.phase s.writer + 3 * count p (map row es)

  Paid-moved :
      (flush_max : ℕ) (m : Move) (phase : Phase) (w : Writer)
      → let s : Service = record { phase = phase; writer = w } in
        Paid s
          (record { phase = phase; writer = if is_live phase m then move flush_max m w else w })
          (taken_live m s)
  unfolding taken
  Paid-moved flush_max m working w =
      omega (arith, weight-move p flush_max m w, batched-move p flush_max m w)
  Paid-moved flush_max (arrives e) crashed w = omega arith
  Paid-moved flush_max (wakes due) crashed w = weight-move p flush_max (wakes due) w
  Paid-moved flush_max (consumer_ends stored) crashed w =
      weight-move p flush_max (consumer_ends stored) w
  Paid-moved flush_max (ticker_ends stored) crashed w =
      weight-move p flush_max (ticker_ends stored) w
  Paid-moved flush_max (consumer_ends stored) cancelled w =
      omega (arith, left-consumer_ends p flush_max stored w)
  Paid-moved flush_max (arrives e) cancelled w = omega arith
  Paid-moved flush_max (wakes due) cancelled w = omega arith
  Paid-moved flush_max (ticker_ends stored) cancelled w = omega arith

  Paid-crash :
      (phase : Phase) (w : Writer)
      → let s : Service = record { phase = phase; writer = w } in Paid s (crash s) []
  unfolding crash
  Paid-crash working w = elim (Option-cases w.consumer) [
    | inl idle ↦ simp (idle, crash) (omega (arith, weight-last_flush p w idle))
    | inr (rows, busy) ↦ simp (busy, crash) (omega arith)
  ]
  Paid-crash crashed w = omega arith
  Paid-crash cancelled w = omega arith

  Paid-cancel :
      (c t : Bool) (phase : Phase) (w : Writer)
      → let s : Service = record { phase = phase; writer = w } in Paid s (cancel c t s) []
  unfolding cancel
  Paid-cancel c t working w =
      omega (
        arith,
        left-last_flush p (interrupted c t w) refl,
        left-interrupted p c t w,
        left-weight p w,
      )
  Paid-cancel c t crashed w = omega (arith, left-interrupted p c t w, left-weight p w)
  Paid-cancel c t cancelled w = omega (arith, left-interrupted p c t w)

module _ (of_pairs : Items → Result Dict) where
  abbrev pub taken_of : Result Dict → Service → List Dict
  taken_of (ok e) s = taken_live (arrives e) s
  taken_of (err x) s = []

  -- The event that the consumer takes in a step.
  abbrev pub taken_in : Step → Service → List Dict
  taken_in (moves m) s = taken_live m s
  taken_in (delivers v) s = taken_of (dict_of of_pairs v) s
  taken_in breaks s = []
  taken_in (cancels c t) s = []

  module _ (flush_max : ℕ) where
    -- The events that the consumer takes.
    abbrev pub heard : List Step → Service → List Dict
    heard [] s = []
    heard (x ∷ xs) s = taken_in x s ++ heard xs (step of_pairs flush_max x s)

    Paid-take_in :
        (p : Row → Bool) (r : Result Dict) (s : Service)
        → Paid p s (take_in flush_max r s) (taken_of r s)
    Paid-take_in p (ok e) s = Paid-moved p flush_max (arrives e) s.phase s.writer
    Paid-take_in p (err x) s = Paid-crash p s.phase s.writer

    Paid-step :
        (p : Row → Bool) (x : Step) (s : Service)
        → Paid p s (step of_pairs flush_max x s) (taken_in x s)
    unfolding step
    Paid-step p (moves m) s = Paid-moved p flush_max m s.phase s.writer
    Paid-step p (delivers v) s = Paid-take_in p (dict_of of_pairs v) s
    Paid-step p breaks s = Paid-crash p s.phase s.writer
    Paid-step p (cancels c t) s = Paid-cancel p c t s.phase s.writer

    Paid-serve :
        (p : Row → Bool) (xs : List Step) (s : Service)
        → Paid p s (serve of_pairs flush_max xs s) (heard xs s)
    unfolding serve
    Paid-serve p [] s = omega arith
    Paid-serve p (x ∷ xs) s =
        let t = step of_pairs flush_max x s in
        omega (
          arith,
          Paid-step p x s,
          Paid-serve p xs t,
          ap (count p) (map-append row (taken_in x s) (heard xs t)),
          count-append p (map row (taken_in x s)) (map row (heard xs t)),
        )

    table-left : (p : Row → Bool) (phase : Phase) (w : Writer) → count p w.table ≤ left p phase w
    unfolding weight
    table-left p working w = omega arith
    table-left p crashed w = omega arith
    table-left p cancelled w = omega arith

    -- No row is invented, and none is written more than three times, from the start of the writer
    -- to its end: for every test on rows, the table holds at most three times as many rows that
    -- satisfy it as there were events taken whose row does. This holds however the consumer, the
    -- ticker, the database, the last flush, an exception of the subscription, a message that is no
    -- mapping and a cancellation interleave, and whether or not the database has committed what is
    -- being inserted when the cancellation comes.
    pub serve-table :
        (p : Row → Bool) (xs : List Step)
        → count p (serve of_pairs flush_max xs start).writer.table
          ≤ 3 * count p (map row (heard xs start))
    unfolding weight held
    serve-table p xs =
        let end = serve of_pairs flush_max xs start in
        let paid = Paid-serve p xs start in omega (arith, paid, table-left p end.phase end.writer)
