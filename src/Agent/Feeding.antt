-- ===== src/Agent/Feeding.antt =====
-- What the loop of apps/agents/shared/base.py feeds to a subclass, and to the executor.
use dcops.Base.{
  String, ◌≡◌, refl, ◌∙◌, inl, inr, Bool, Bool-cases, true, false, List, [], ◌∷◌, ◌&&◌,
  if◌then◌else◌,
}
use dcops.Policy.Rules.{RuleLanguage}
use dcops.Policy.Engine.{PolicyEngine}
use dcops.Executor.Effects.{Env, History}
use dcops.Executor.Agent.{Incoming, handle, serve}
use dcops.Agent.Life.{
  heartbeat_key, payload, Agent, Life, Step, signals, receives, closes, beats, started, receive,
  beat, step, run,
}

-- The events that come before a signal and before the subscription ends.
abbrev pub handled : {E F : Type 0} → List (Step E F) → List E
handled [] = []
handled (signals ∷ xs) = []
handled (receives event ∷ xs) = event ∷ handled xs
handled (closes ∷ xs) = []
handled (beats now taken ∷ xs) = handled xs

module _ {E S F : Type 0} (agent : Agent E S F) where
  abbrev fed : List E → S → S
  fed [] s = s
  fed (event ∷ events) s = fed events (agent.handle event s)

  -- An agent that handles nothing any more.
  abbrev is_done : Life S → Bool
  is_done l = if l.serving then l.stop else true

  abbrev life : Bool → Bool → Bool → S → List (String × String) → Life S
  life stop serving beating s w = record {
    stop = stop;
    serving = serving;
    beating = beating;
    state = s;
    written = w;
  }

  -- A round of the heartbeat task changes nothing that the loop reads.
  beat-keeps :
      (now : F) (taken stop serving beating : Bool) (s : S) (w : List (String × String))
      → let l = step agent (beats now taken) (life stop serving beating s w) in
        (l.stop ≡ stop) × (l.serving ≡ serving) × (l.state ≡ s)
  unfolding step beat
  beat-keeps now taken stop serving false s w = (refl, refl, refl)
  beat-keeps now taken true serving true s w = (refl, refl, refl)
  beat-keeps now taken false serving true s w = elim (Bool-cases (agent.has_client && taken)) [
    | inl writes ↦ rw writes (refl, refl, refl)
    | inr not_written ↦ rw not_written (refl, refl, refl)
  ]

  done-step :
      (x : Step E F) (stop serving beating : Bool) (s : S) (w : List (String × String))
      → is_done (life stop serving beating s w) ≡ true
      → let l = step agent x (life stop serving beating s w) in (is_done l ≡ true) × (l.state ≡ s)
  unfolding step receive
  done-step signals stop true beating s w done = (refl, refl)
  done-step signals stop false beating s w done = (refl, refl)
  done-step (receives event) stop false beating s w done = (refl, refl)
  done-step (receives event) true true beating s w done = (refl, refl)
  done-step (receives event) false true beating s w done = cc
  done-step closes stop false beating s w done = (refl, refl)
  done-step closes stop true beating s w done = (refl, refl)
  done-step (beats now taken) stop serving beating s w done =
      let (same_stop, same_serving, same) = beat-keeps now taken stop serving beating s w in
      (rw (same_serving, same_stop) done, same)

  done-run :
      (xs : List (Step E F)) (l : Life S) → is_done l ≡ true → (run agent xs l).state ≡ l.state
  unfolding run
  done-run [] l done = refl
  done-run (x ∷ xs) l done =
      let (still, same) = done-step x l.stop l.serving l.beating l.state l.written done in
      done-run xs (step agent x l) still ∙ same

  -- The state after any steps is that after the handled events, one by one.
  pub run-fed :
      (xs : List (Step E F)) (beating : Bool) (s : S) (w : List (String × String))
      → (run agent xs (life false true beating s w)).state ≡ fed (handled xs) s
  unfolding run step receive beat
  run-fed [] beating s w = refl
  run-fed (signals ∷ xs) beating s w = done-run xs _ refl
  run-fed (closes ∷ xs) beating s w = done-run xs _ refl
  run-fed (receives event ∷ xs) beating s w = run-fed xs beating (agent.handle event s) w
  run-fed (beats now taken ∷ xs) false s w = run-fed xs false s w
  run-fed (beats now taken ∷ xs) true s w =
      of_written (agent.has_client && taken) (λ w'. run-fed xs true s w')
    where
      of_written :
          (writes : Bool)
          → ((w' : List (String × String))
              → (run agent xs (life false true true s w')).state ≡ fed (handled xs) s)
          → (run agent xs (
              if writes
              then life false true true s
                  ((heartbeat_key agent.site_id agent.name, agent.dumps (payload agent now)) ∷ w)
              else life false true true s w)).state
            ≡ fed (handled xs) s
      of_written true rest = rest _
      of_written false rest = rest w

module _ {F G : Type 0} (env : Env F) (language : RuleLanguage) (engine : PolicyEngine) where
  -- An agent that runs `handle` of the executor.
  abbrev pub IsExecutor : Agent Incoming (History F) G → Type 0
  IsExecutor agent =
      (event : Incoming) (h : History F)
      → agent.handle event h ≡ (handle env language engine event h).1

  fed-serve :
      (agent : Agent Incoming (History F) G)
      → IsExecutor agent
      → (events : List Incoming) (h : History F)
      → fed agent events h ≡ serve env language engine events h
  unfolding serve
  fed-serve agent is [] h = refl
  fed-serve agent is (event ∷ events) h = rw (is event h) (fed-serve agent is events _)

  -- However events, signals and heartbeats come to the executor, and whether or not Redis takes the
  -- heartbeats: what it has done is what its loop does with the events that came before the first
  -- signal and before the subscription ended.
  pub run-serve :
      (agent : Agent Incoming (History F) G)
      → IsExecutor agent
      → (xs : List (Step Incoming G)) (h : History F)
      → (run agent xs (started h)).state ≡ serve env language engine (handled xs) h
  run-serve agent is xs h = run-fed agent xs true h [] ∙ fed-serve agent is (handled xs) h
