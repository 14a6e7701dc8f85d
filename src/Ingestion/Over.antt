-- ===== src/Ingestion/Over.antt =====
-- The writer of apps/ingestion/main.py after `gather` has ended: what it hears, and what its last
-- flush keeps.
use dcops.Base.{
  ℕ, ◌≡◌, ◌⊎◌, refl, sym, ap, ◌∙◌, subst, inl, inr, Bool, Bool-cases, true, false, Option, none,
  List, [], ◌∷◌, ◌++◌, map, append-nil,
}
use dcops.Base.Result.{Exc, Result, ok, err}
use dcops.Value.{Value, Dict, Items}
use dcops.Ingestion.Writer.{
  Row, row, Writer, empty_writer, Move, arrives, wakes, consumer_ends, ticker_ends, move, run,
}
use dcops.Ingestion.Rows.{taken, received}
use dcops.Ingestion.Loss.{Calm, run-Calm}
use dcops.Ingestion.Service.{
  Phase, working, crashed, cancelled, Service, start, Step, moves, delivers, breaks, cancels,
  is_live, last_flush, crash, cancel, dict_of, moved, take_in, step, serve,
}
use dcops.Ingestion.Stop.{taken_of, taken_in, heard}

abbrev is_over : Phase → Bool
is_over working = false
is_over _ = true

-- What is left of the steps without the messages and the failure of the subscription.
abbrev pub unheard : List Step → List Step
unheard [] = []
unheard (moves (arrives e) ∷ xs) = unheard xs
unheard (delivers v ∷ xs) = unheard xs
unheard (breaks ∷ xs) = unheard xs
unheard (x ∷ xs) = x ∷ unheard xs

module _ (of_pairs : Items → Result Dict) (flush_max : ℕ) where
  -- After `gather`, the writer goes on as if no message came, and takes no event.
  abbrev Deaf : List Step → Service → Type 0
  Deaf xs s =
      (heard of_pairs flush_max xs s ≡ [])
      × (serve of_pairs flush_max xs s ≡ serve of_pairs flush_max (unheard xs) s)

  crash-over :
      (phase : Phase) (w : Writer)
      → is_over phase ≡ true
      → let s : Service = record { phase = phase; writer = w } in crash s ≡ s
  unfolding crash
  crash-over working w over = cc
  crash-over crashed w over = refl
  crash-over cancelled w over = refl

  deaf : (e : Dict) (phase : Phase) → is_over phase ≡ true → is_live phase (arrives e) ≡ false
  deaf e working over = cc
  deaf e crashed over = refl
  deaf e cancelled over = refl

  take_in-over :
      (r : Result Dict) (s : Service)
      → is_over s.phase ≡ true
      → (take_in flush_max r s ≡ s) × (taken_of of_pairs r s ≡ [])
  take_in-over (ok e) s over = rw (deaf e s.phase over) (refl, refl)
  take_in-over (err x) s over = (crash-over s.phase s.writer over, refl)

  taken-over :
      (m : Move) (s : Service) → is_over s.phase ≡ true → taken_in of_pairs (moves m) s ≡ []
  unfolding taken
  taken-over (arrives e) s over = rw (deaf e s.phase over) refl
  taken-over (wakes due) s over = elim (Bool-cases (is_live s.phase (wakes due))) [
    | inl live ↦ rw live refl
    | inr over ↦ rw over refl
  ]
  taken-over (consumer_ends stored) s over =
      elim (Bool-cases (is_live s.phase (consumer_ends stored))) [
        | inl live ↦ rw live refl
        | inr over ↦ rw over refl
      ]
  taken-over (ticker_ends stored) s over =
      elim (Bool-cases (is_live s.phase (ticker_ends stored))) [
        | inl live ↦ rw live refl
        | inr over ↦ rw over refl
      ]

  -- A step that is heard of nowhere, and one that is.
  Deaf-unheard :
      (x : Step) (xs : List Step) (s : Service)
      → (step of_pairs flush_max x s ≡ s) × (taken_in of_pairs x s ≡ [])
      → unheard (x ∷ xs) ≡ unheard xs
      → Deaf xs s
      → Deaf (x ∷ xs) s
  unfolding serve
  Deaf-unheard x xs s (stays, none_taken) same (none_heard, goes) =
      (rw (none_taken, stays) none_heard, rw (stays, same) goes)

  Deaf-done :
      (x : Step) (xs : List Step) (s : Service)
      → taken_in of_pairs x s ≡ []
      → unheard (x ∷ xs) ≡ x ∷ unheard xs
      → Deaf xs (step of_pairs flush_max x s)
      → Deaf (x ∷ xs) s
  unfolding serve
  Deaf-done x xs s none_taken same (none_heard, goes) = (rw none_taken none_heard, rw same goes)

  cancel-over :
      (c t : Bool) (phase : Phase) (w : Writer)
      → is_over (cancel c t (record { phase = phase; writer = w })).phase ≡ true
  unfolding cancel
  cancel-over c t working w = refl
  cancel-over c t crashed w = refl
  cancel-over c t cancelled w = refl

  crash-idle :
      (w : Writer)
      → w.consumer ≡ none
      → is_over (crash (record { phase = working; writer = w })).phase ≡ true
  unfolding crash
  crash-idle w idle = rw idle refl

  Deaf-over : (xs : List Step) (s : Service) → is_over s.phase ≡ true → Deaf xs s
  unfolding serve step
  Deaf-over [] s over = (refl, refl)
  Deaf-over (moves (arrives e) ∷ xs) s over =
      Deaf-unheard (moves (arrives e)) xs s (take_in-over (ok e) s over) refl (Deaf-over xs s over)
  Deaf-over (delivers v ∷ xs) s over =
      Deaf-unheard (delivers v) xs s (take_in-over (dict_of of_pairs v) s over) refl
        (Deaf-over xs s over)
  Deaf-over (breaks ∷ xs) s over =
      Deaf-unheard breaks xs s (crash-over s.phase s.writer over, refl) refl (Deaf-over xs s over)
  Deaf-over (moves (wakes due) ∷ xs) s over =
      Deaf-done (moves (wakes due)) xs s (taken-over (wakes due) s over) refl
        (Deaf-over xs (step of_pairs flush_max (moves (wakes due)) s) over)
  Deaf-over (moves (consumer_ends stored) ∷ xs) s over =
      Deaf-done (moves (consumer_ends stored)) xs s (taken-over (consumer_ends stored) s over) refl
        (Deaf-over xs (step of_pairs flush_max (moves (consumer_ends stored)) s) over)
  Deaf-over (moves (ticker_ends stored) ∷ xs) s over =
      Deaf-done (moves (ticker_ends stored)) xs s (taken-over (ticker_ends stored) s over) refl
        (Deaf-over xs (step of_pairs flush_max (moves (ticker_ends stored)) s) over)
  Deaf-over (cancels c t ∷ xs) s over =
      Deaf-done (cancels c t) xs s refl refl
        (Deaf-over xs (step of_pairs flush_max (cancels c t) s) (cancel-over c t s.phase s.writer))

  -- Let the consumer wait for an event, and get a message that `dict` makes no dict of, such as a
  -- number or a text. From then on, whatever messages come, no event is taken, and the writer goes
  -- on exactly as if there were none.
  pub serve-delivers :
      (v : Value) (x : Exc) (xs : List Step) (w : Writer)
      → w.consumer ≡ none
      → dict_of of_pairs v ≡ err x
      → let s : Service = record { phase = working; writer = w } in
        (heard of_pairs flush_max (delivers v ∷ xs) s ≡ [])
        × (serve of_pairs flush_max (delivers v ∷ xs) s
            ≡ serve of_pairs flush_max (delivers v ∷ unheard xs) s)
  unfolding serve step crash
  serve-delivers v x xs w idle bad =
      let s : Service = record { phase = working; writer = w } in
      subst
        (λ (r : Result Dict).
          (taken_of of_pairs r s ++ heard of_pairs flush_max xs (take_in flush_max r s) ≡ [])
          × (serve of_pairs flush_max xs (take_in flush_max r s)
              ≡ serve of_pairs flush_max (unheard xs) (take_in flush_max r s)))
        (sym bad) (Deaf-over xs (crash s) (crash-idle w idle))

  -- The moves of the coroutines alone.
  serve-moves :
      (ms : List Move) (xs : List Step) (w : Writer)
      → serve of_pairs flush_max (map moves ms ++ xs) (record { phase = working; writer = w })
        ≡ serve of_pairs flush_max xs (record { phase = working; writer = run flush_max ms w })
  unfolding serve step run
  serve-moves [] xs w = refl
  serve-moves (m ∷ ms) xs w = serve-moves ms xs (move flush_max m w)

  -- The last flush, when it succeeds, of a writer in which nothing waits.
  abbrev Stored : Writer → Service → Type 0
  Stored w s = (s.writer.table ≡ w.table ++ map row w.batch) × (s.writer.batch ≡ [])

  last_flush-Stored :
      (phase : Phase) (batch : List Dict) (table : List Row)
      → is_live phase (consumer_ends true) ≡ true
      → let w : Writer = record { batch = batch; consumer = none; ticker = none; table = table } in
        Stored w
          (moved flush_max (consumer_ends true) (record { phase = phase; writer = last_flush w }))
  unfolding last_flush move
  last_flush-Stored phase [] table live = rw live (sym (append-nil table), refl)
  last_flush-Stored phase (e ∷ es) table live = rw live (refl, refl)

  abbrev IsEnding : Step → Type 0
  IsEnding x = (x ≡ breaks) ⊎ ((c t : Bool) × (x ≡ cancels c t))

  abbrev ended : Step → Writer → Service
  ended x w =
      serve of_pairs flush_max (x ∷ moves (consumer_ends true) ∷ [])
        (record { phase = working; writer = w })

  -- The writer without what it inserts.
  abbrev at_rest : Writer → Writer
  at_rest w = record w { consumer = none; ticker = none }

  ended-Stored : (x : Step) (w : Writer) → IsEnding x → Stored w (ended x (at_rest w))
  unfolding serve step crash cancel
  ended-Stored x w (inl e) = rw e (last_flush-Stored crashed w.batch w.table refl)
  ended-Stored x w (inr (c, t, e)) = rw e (last_flush-Stored cancelled w.batch w.table refl)

  at_rest_idle : (w : Writer) → w.consumer ≡ none → w.ticker ≡ none → at_rest w ≡ w
  at_rest_idle w c t =
      ap (λ (o : Option (List Row)). record w { consumer = o; ticker = none }) (sym c)
      ∙ ap (λ (o : Option (List Row)). record w { ticker = o }) (sym t)

  -- Let a run of the two coroutines be calm up to a moment at which no insertion waits: then the
  -- subscription fails or the task is cancelled, and the last flush succeeds. The table holds the
  -- rows of all events that were taken, in their order, and the batch is empty.
  pub serve-Calm :
      (ms : List Move)
      → Calm flush_max ms empty_writer
      → (run flush_max ms empty_writer).consumer ≡ none
      → (run flush_max ms empty_writer).ticker ≡ none
      → (ending : Step) → IsEnding ending
      → let s =
          serve of_pairs flush_max
            (map moves ms ++ ending ∷ moves (consumer_ends true) ∷ [])
            start in
        (s.writer.table ≡ map row (received flush_max ms empty_writer)) × (s.writer.batch ≡ [])
  serve-Calm ms calm c t ending ends =
      let w = run flush_max ms empty_writer in
      let after = serve-moves ms (ending ∷ moves (consumer_ends true) ∷ []) empty_writer in
      let (table, batch) =
        subst (λ (v : Writer). Stored w (ended ending v)) (at_rest_idle w c t)
          (ended-Stored ending w ends) in
      (
        ap (λ (s : Service). s.writer.table) after ∙ table ∙ run-Calm flush_max ms calm,
        ap (λ (s : Service). s.writer.batch) after ∙ batch,
      )
