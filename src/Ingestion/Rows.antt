-- ===== src/Ingestion/Rows.antt =====
-- What becomes of the events in apps/ingestion/main.py: `_flush` empties the batch after its wait,
-- and the other coroutine may have used the batch meanwhile.
use dcops.Base.{
  ℕ, ◌+◌, ◌*◌, ◌≤◌, ◌≡◌, sym, ap, subst, inl, inr, Bool, Bool-cases, Option-cases, true, false, not,
  ◌&&◌, Option, none, some, List, [], ◌∷◌, ◌++◌, map, map-append, length, arith, is_some, leb,
  if◌then◌else◌,
}
use dcops.Value.{Dict}
use dcops.Ingestion.Writer.{
  Row, row, Writer, empty_writer, Move, arrives, wakes, consumer_ends, ticker_ends, no_events,
  consume, tick, insert_telemetry, move, run,
}

-- The event that the consumer takes, if the move is one.
unfoldable pub taken : Move → Writer → List Dict
taken (arrives e) w = if is_some w.consumer then [] else e ∷ []
taken (wakes due) w = []
taken (consumer_ends ok) w = []
taken (ticker_ends ok) w = []

-- The events that the consumer takes.
unfoldable pub received : ℕ → List Move → Writer → List Dict
unfolding taken
received flush_max [] w = []
received flush_max (m ∷ ms) w = taken m w ++ received flush_max ms (move flush_max m w)

-- How many rows satisfy a test.
abbrev pub count : (Row → Bool) → List Row → ℕ
count p [] = 0
count p (r ∷ rs) = (if p r then 1 else 0) + count p rs

module _ (p : Row → Bool) where
  pub count-append : (xs ys : List Row) → count p (xs ++ ys) ≡ count p xs + count p ys
  count-append [] ys = omega arith
  count-append (x ∷ xs) ys = omega (arith, count-append xs ys)

  pub count-snoc :
      (es : List Dict) (e : Dict)
      → count p (map row (es ++ e ∷ [])) ≡ count p (map row es) + (if p (row e) then 1 else 0)
  count-snoc [] e = omega arith
  count-snoc (x ∷ es) e = omega (arith, count-snoc es e)

  -- What a coroutine can still write: the rows in flight, or else those of the batch.
  unfoldable pub held : Option (List Row) → ℕ → ℕ
  held none n = n
  held (some rows) n = count p rows

  held_snoc :
      (o : Option (List Row)) (es : List Dict) (e : Dict)
      → held o (count p (map row (es ++ e ∷ [])))
        ≤ held o (count p (map row es)) + (if p (row e) then 1 else 0)
  unfolding held
  held_snoc none es e = omega (arith, count-snoc es e)
  held_snoc (some rows) es e = omega arith

  -- A flush that ends leaves at most what it held.
  pub held_empty : (o : Option (List Row)) (n : ℕ) → held o 0 ≤ held o n
  unfolding held
  held_empty none n = omega arith
  held_empty (some rows) n = omega arith

  pub count-insert :
      (ok : Bool) (rows table : List Row)
      → count p (insert_telemetry ok rows table) ≤ count p table + count p rows
  count-insert true rows table = omega (arith, count-append table rows)
  count-insert false rows table = omega arith

  unfoldable pub weight : Writer → ℕ
  weight w =
      let n = count p (map row w.batch) in count p w.table + held w.consumer n + held w.ticker n

module _ (p : Row → Bool) (flush_max : ℕ) where
  weight-consume :
      (e : Dict) (w : Writer)
      → w.consumer ≡ none
      → weight p (consume flush_max e w) ≤ weight p w + 2 * count p (row e ∷ [])
  unfolding consume weight held
  weight-consume e w idle = elim (Bool-cases (leb flush_max (length (w.batch ++ e ∷ [])))) [
    | inl full ↦
        simp (full, idle) (omega (arith, count-snoc p w.batch e, held_snoc p w.ticker w.batch e))
    | inr below ↦
        simp (below, idle) (omega (arith, count-snoc p w.batch e, held_snoc p w.ticker w.batch e))
  ]

  weight-tick : (due : Bool) (w : Writer) → w.ticker ≡ none → weight p (tick due w) ≡ weight p w
  unfolding tick weight held
  weight-tick due w idle = elim (Bool-cases (not (no_events w.batch) && due)) [
    | inl go ↦ simp (go, idle) (omega arith)
    | inr stay ↦ simp (stay, idle) (omega arith)
  ]

  -- The weight grows by two for each event that satisfies the test, and by nothing else.
  pub weight-move :
      (m : Move) (w : Writer)
      → weight p (move flush_max m w) ≤ weight p w + 2 * count p (map row (taken m w))
  unfolding move taken
  weight-move (arrives e) w = elim (Option-cases w.consumer) [
    | inl idle ↦
        let grows = weight-consume e w idle in
        subst
          (λ (b : Bool).
            weight p (if b then w else consume flush_max e w)
            ≤ weight p w + 2 * count p (map row (if b then [] else e ∷ [])))
          (sym (ap is_some idle)) grows
    | inr (rows, busy) ↦
        subst
          (λ (b : Bool).
            weight p (if b then w else consume flush_max e w)
            ≤ weight p w + 2 * count p (map row (if b then [] else e ∷ [])))
          (sym (ap is_some busy)) (omega arith)
  ]
  weight-move (wakes due) w = elim (Option-cases w.ticker) [
    | inl idle ↦
        subst (λ (b : Bool). weight p (if b then w else tick due w) ≤ weight p w + 0)
          (sym (ap is_some idle)) (omega (arith, weight-tick due w idle))
    | inr (rows, busy) ↦
        subst (λ (b : Bool). weight p (if b then w else tick due w) ≤ weight p w + 0)
          (sym (ap is_some busy)) (omega arith)
  ]
  weight-move (consumer_ends ok) w = elim (Option-cases w.consumer) [
    | inl idle ↦ simp (idle, move) (omega arith)
    | inr (rows, busy) ↦
        let n = count p (map row w.batch) in
        simp (busy, move)
          (unfold weight held in
            omega (
              arith,
              held_empty p w.ticker n,
              count-insert p ok rows w.table,
              ap (λ (o : Option (List Row)). held p o n) busy,
            ))
  ]
  weight-move (ticker_ends ok) w = elim (Option-cases w.ticker) [
    | inl idle ↦ simp (idle, move) (omega arith)
    | inr (rows, busy) ↦
        let n = count p (map row w.batch) in
        simp (busy, move)
          (unfold weight held in
            omega (
              arith,
              held_empty p w.consumer n,
              count-insert p ok rows w.table,
              ap (λ (o : Option (List Row)). held p o n) busy,
            ))
  ]

  weight-run :
      (ms : List Move) (w : Writer)
      → weight p (run flush_max ms w) ≤ weight p w + 2 * count p (map row (received flush_max ms w))
  unfolding run received
  weight-run [] w = omega arith
  weight-run (m ∷ ms) w = omega (
    arith,
    weight-move m w,
    weight-run ms (move flush_max m w),
    ap (count p) (map-append row (taken m w) (received flush_max ms (move flush_max m w))),
    count-append p (map row (taken m w)) (map row (received flush_max ms (move flush_max m w))),
  )

  -- No row is invented, and none is written more than twice: for every test on rows, the table
  -- holds at most twice as many rows that satisfy it as there were events taken whose row does,
  -- however the two coroutines and the database interleave.
  run-table :
      (ms : List Move)
      → count p (run flush_max ms empty_writer).table
        ≤ 2 * count p (map row (received flush_max ms empty_writer))
  run-table ms =
      let bound = weight-run ms empty_writer in unfold weight held in omega (arith, bound)
