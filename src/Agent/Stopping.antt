-- ===== src/Agent/Stopping.antt =====
-- How an agent of apps/agents/shared/base.py ends: `_stop` is looked at only when an event comes.
use dcops.Base.{inl, inr, Bool-cases, ◌≡◌, refl, true, false, List, [], ◌∷◌, ◌++◌, All}
use dcops.Agent.Life.{Agent, Life, Step, signals, receives, closes, beats, receive, beat, step, run}

-- Steps in which the bus is silent.
abbrev pub IsSilent : {E F : Type 0} → Step E F → Type 0
IsSilent signals = Unit
IsSilent (beats now taken) = Unit
IsSilent (receives event) = ⊥
IsSilent closes = ⊥

module _ {E S F : Type 0} (agent : Agent E S F) where
  -- An agent that was told to stop and goes on waiting, with the same state and nothing written.
  record Waits (l m : Life S) : Type 0 where
    stop : m.stop ≡ true
    serving : m.serving ≡ true
    state : m.state ≡ l.state
    written : m.written ≡ l.written

  Waits-step : (x : Step E F) (l m : Life S) → IsSilent x → Waits l m → Waits l (step agent x m)
  unfolding step beat
  Waits-step signals l m silent w = record {
    stop = refl;
    serving = w.serving;
    state = w.state;
    written = w.written;
  }
  Waits-step (beats now taken) l m silent w = elim (Bool-cases m.beating) [
    | inl beating ↦
        simp (beating, w.stop)
          (record { stop = refl; serving = w.serving; state = w.state; written = w.written })
    | inr over ↦ simp over w
  ]
  Waits-step (receives event) l m silent w = elim silent [ ]
  Waits-step closes l m silent w = elim silent [ ]

  Waits-run :
      (xs : List (Step E F)) (l m : Life S) → All IsSilent xs → Waits l m → Waits l (run agent xs m)
  unfolding run
  Waits-run [] l m silent w = w
  Waits-run (x ∷ xs) l m (silent, rest) w =
      Waits-run xs l (step agent x m) rest (Waits-step x l m silent w)

  run-append :
      (xs ys : List (Step E F)) (l : Life S)
      → run agent (xs ++ ys) l ≡ run agent ys (run agent xs l)
  unfolding run
  run-append [] ys l = refl
  run-append (x ∷ xs) ys l = run-append xs ys (step agent x l)

  -- An agent that has left its loop, with the same state and nothing more written.
  record Gone (l m : Life S) : Type 0 where
    serving : m.serving ≡ false
    beating : m.beating ≡ false
    state : m.state ≡ l.state
    written : m.written ≡ l.written

  Gone-step : (x : Step E F) (l m : Life S) → Gone l m → Gone l (step agent x m)
  unfolding step
  Gone-step signals l m g = record {
    serving = g.serving;
    beating = g.beating;
    state = g.state;
    written = g.written;
  }
  Gone-step (receives event) l m g = simp g.serving g
  Gone-step closes l m g = simp g.serving g
  Gone-step (beats now taken) l m g = simp g.beating g

  Gone-run : (xs : List (Step E F)) (l m : Life S) → Gone l m → Gone l (run agent xs m)
  unfolding run
  Gone-run [] l m g = g
  Gone-run (x ∷ xs) l m g = Gone-run xs l (step agent x m) (Gone-step x l m g)

  Gone-receive : (event : E) (l m : Life S) → Waits l m → Gone l (step agent (receives event) m)
  unfolding step receive
  Gone-receive event l m w =
      rw (w.serving, w.stop)
        (record { serving = refl; beating = refl; state = w.state; written = w.written })

  -- Let an agent that serves get a signal. While the bus is silent, it goes on serving, in the
  -- state that it had, and writes no heartbeat any more. The next event ends it, and neither that
  -- event nor any later one is handled.
  pub run-signals :
      (l : Life S) (quiet : List (Step E F)) (event : E) (later : List (Step E F))
      → l.serving ≡ true
      → All IsSilent quiet
      → let m = run agent (signals ∷ quiet) l in
        let n = run agent (signals ∷ quiet ++ receives event ∷ later) l in
        ((m.serving ≡ true) × (m.state ≡ l.state) × (m.written ≡ l.written))
        × ((n.serving ≡ false) × (n.state ≡ l.state) × (n.written ≡ l.written))
  unfolding run step
  run-signals l quiet event later serving silent =
      let told : Life S = record l { stop = true } in
      let waits : Waits l (run agent quiet told) =
        Waits-run quiet l told silent
          (record { stop = refl; serving = serving; state = refl; written = refl }) in
      let gone = Gone-run later l _ (Gone-receive event l _ waits) in
      (
        (waits.serving, waits.state, waits.written),
        rw (run-append quiet (receives event ∷ later) told)
            (gone.serving, gone.state, gone.written),
      )
