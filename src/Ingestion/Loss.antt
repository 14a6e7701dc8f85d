-- ===== src/Ingestion/Loss.antt =====
-- When the writer of apps/ingestion/main.py keeps every event, and when it does not.
use dcops.Base.{
  ℕ, ◌≡◌, refl, sym, ap, subst, ◌∙◌, inl, inr, Bool, Bool-cases, true, not, ◌&&◌, Option, none,
  some, List, [], ◌∷◌, ◌++◌, map, map-append, append_assoc, append-nil, length, is_some, leb,
  if◌then◌else◌,
}
use dcops.Value.{Dict}
use dcops.Ingestion.Writer.{
  Row, row, Writer, empty_writer, Move, arrives, wakes, consumer_ends, ticker_ends, no_events,
  consume, tick, move, run,
}
use dcops.Ingestion.Rows.{taken, received}

-- A move that leaves the batch alone while a flush waits, and an insertion that succeeds.
abbrev pub Allowed : Move → Writer → Type 0
Allowed (arrives e) w = (w.consumer ≡ none) × (w.ticker ≡ none)
Allowed (wakes due) w = (w.consumer ≡ none) × (w.ticker ≡ none)
Allowed (consumer_ends ok) w = ok ≡ true
Allowed (ticker_ends ok) w = ok ≡ true

abbrev pub Calm : ℕ → List Move → Writer → Type 0
Calm flush_max [] w = Unit
Calm flush_max (m ∷ ms) w = Allowed m w × Calm flush_max ms (move flush_max m w)

-- Nothing waits, or one coroutine waits with the rows of the whole batch.
data Turn (rows : List Row) (c t : Option (List Row)) : Type 0 where
  idle : c ≡ none → t ≡ none → Turn rows c t
  consuming : c ≡ some rows → t ≡ none → Turn rows c t
  ticking : c ≡ none → t ≡ some rows → Turn rows c t

-- The table and the batch hold all events taken, in their order.
record Kept (got : List Dict) (w : Writer) : Type 0 where
  all : w.table ++ map row w.batch ≡ map row got
  turn : Turn (map row w.batch) w.consumer w.ticker

module _ (flush_max : ℕ) where
  Kept-consume :
      (e : Dict) (got : List Dict) (w : Writer)
      → w.consumer ≡ none
      → w.ticker ≡ none
      → Kept got w
      → Kept (got ++ e ∷ []) (consume flush_max e w)
  unfolding consume
  Kept-consume e got w c t k =
      let grown : w.table ++ map row (w.batch ++ e ∷ []) ≡ map row (got ++ e ∷ []) =
        ap (λ (r : List Row). w.table ++ r) (map-append row w.batch (e ∷ []))
        ∙ sym (append_assoc w.table (map row w.batch) (row e ∷ []))
        ∙ ap (λ (r : List Row). r ++ row e ∷ []) k.all
        ∙ sym (map-append row got (e ∷ [])) in
      elim (Bool-cases (leb flush_max (length (w.batch ++ e ∷ [])))) [
        | inl full ↦ simp full (record { all = grown; turn = consuming refl t })
        | inr below ↦ simp below (record { all = grown; turn = idle c t })
      ]

  Kept-tick :
      (due : Bool) (got : List Dict) (w : Writer)
      → w.consumer ≡ none
      → w.ticker ≡ none
      → Kept got w
      → Kept got (tick due w)
  unfolding tick
  Kept-tick due got w c t k = elim (Bool-cases (not (no_events w.batch) && due)) [
    | inl go ↦ simp go (record { all = k.all; turn = ticking c refl })
    | inr stay ↦ simp stay k
  ]

  Kept-consumer :
      (ok : Bool) (got : List Dict) (w : Writer)
      → ok ≡ true
      → Kept got w
      → Turn (map row w.batch) w.consumer w.ticker
      → Kept got (move flush_max (consumer_ends ok) w)
  unfolding move
  Kept-consumer ok got w good k (idle c t) = simp (c, move) k
  Kept-consumer ok got w good k (ticking c t) = simp (c, move) k
  Kept-consumer ok got w good k (consuming c t) =
      simp (c, good, move) (record { all = append-nil _ ∙ k.all; turn = idle refl t })

  Kept-ticker :
      (ok : Bool) (got : List Dict) (w : Writer)
      → ok ≡ true
      → Kept got w
      → Turn (map row w.batch) w.consumer w.ticker
      → Kept got (move flush_max (ticker_ends ok) w)
  unfolding move
  Kept-ticker ok got w good k (idle c t) = simp (t, move) k
  Kept-ticker ok got w good k (consuming c t) = simp (t, move) k
  Kept-ticker ok got w good k (ticking c t) =
      simp (t, good, move) (record { all = append-nil _ ∙ k.all; turn = idle c refl })

  Kept-move :
      (m : Move) (got : List Dict) (w : Writer)
      → Allowed m w
      → Kept got w
      → Kept (got ++ taken m w) (move flush_max m w)
  unfolding move taken consume tick
  Kept-move (arrives e) got w (c, t) k =
      subst
        (λ (b : Bool).
          Kept (got ++ (if b then [] else e ∷ [])) (if b then w else consume flush_max e w))
        (sym (ap is_some c)) (Kept-consume e got w c t k)
  Kept-move (wakes due) got w (c, t) k = rw (append-nil got) (
      subst (λ (b : Bool). Kept got (if b then w else tick due w)) (sym (ap is_some t))
        (Kept-tick due got w c t k))
  Kept-move (consumer_ends ok) got w good k =
      rw (append-nil got) (Kept-consumer ok got w good k k.turn)
  Kept-move (ticker_ends ok) got w good k = rw (append-nil got) (Kept-ticker ok got w good k k.turn)

  Kept-run :
      (ms : List Move) (got : List Dict) (w : Writer)
      → Calm flush_max ms w
      → Kept got w
      → Kept (got ++ received flush_max ms w) (run flush_max ms w)
  unfolding run received
  Kept-run [] got w calm k = rw (append-nil got) k
  Kept-run (m ∷ ms) got w (allowed, calm) k =
      rw (sym (append_assoc got (taken m w) (received flush_max ms (move flush_max m w))))
        (Kept-run ms (got ++ taken m w) (move flush_max m w) calm (Kept-move m got w allowed k))

  -- As long as no event comes and no flush starts while an insertion waits, and no insertion fails,
  -- nothing is lost, doubled or reordered: the table, followed by the rows of the batch, holds the
  -- rows of all events taken, in their order.
  pub run-Calm :
      (ms : List Move)
      → Calm flush_max ms empty_writer
      → (run flush_max ms empty_writer).table ++ map row (run flush_max ms empty_writer).batch
        ≡ map row (received flush_max ms empty_writer)
  run-Calm ms calm =
      (Kept-run ms [] empty_writer calm (record { all = refl; turn = idle refl refl })).all
