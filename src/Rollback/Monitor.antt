-- ===== src/Rollback/Monitor.antt =====
-- `RollbackAgent` of apps/agents/rollback/main.py. A check sleeps first, so that the checks end in
-- any order, between any receptions; it is done in one step when it ends.
use dcops.Base.{
  ℕ, zero, suc, Bool, true, false, ◌||◌, not, Option, none, some, List, [], ◌∷◌, ◌==◌,
  if◌then◌else◌,
}
use dcops.Events.{ActionExecuted}
use dcops.Executor.Effects.{Env, History}
use dcops.Rollback.Verify.{Floats, verify}

-- `_inflight`, the checks that sleep, and what was done so far.
pub record Monitor (F : Type 0) : Type 0 where
  pub inflight : List ℕ
  pub asleep : List (ActionExecuted F)
  pub history : History F

-- `x in xs`
unfoldable pub mem : ℕ → List ℕ → Bool
mem n [] = false
mem n (m ∷ ms) = n == m || mem n ms

-- `xs.discard(x)`
unfoldable pub discard : ℕ → List ℕ → List ℕ
discard n [] = []
discard n (m ∷ ms) = if n == m then discard n ms else m ∷ discard n ms

-- What happens to the agent: an event comes from the bus, or the check at a position ends.
pub data Happening (F : Type 0) : Type 0 where
  received : ActionExecuted F → Happening F
  ended : ℕ → Happening F

-- The element at a position, and the rest.
unfoldable pub pick : {A : Type 0} → ℕ → List A → Option (A × List A)
pick n [] = none
pick zero (x ∷ xs) = some (x, xs)
pick (suc n) (x ∷ xs) = elim (pick n xs) [ none ↦ none | some (y, ys) ↦ some (y, x ∷ ys) ]

abbrev pub no_kpis {ℓ} : {A : Type ℓ} → List A → Bool
no_kpis [] = true
no_kpis (x ∷ xs) = false

module _ {F : Type 0} (floats : Floats F) (env : Env F) where
  -- `handle`
  unfoldable pub handle : ActionExecuted F → Monitor F → Monitor F
  handle event m =
      if not event.success
      then m
      else if no_kpis event.pre_action_kpis
      then m
      else if mem event.action_id m.inflight
      then m
      else record m { inflight = event.action_id ∷ m.inflight; asleep = event ∷ m.asleep }

  -- `_verify_later`, after its sleep.
  unfoldable pub verify_later : ActionExecuted F → List (ActionExecuted F) → Monitor F → Monitor F
  verify_later event rest m = record {
    inflight = discard event.action_id m.inflight;
    asleep = rest;
    history = (verify floats env event m.history).1;
  }

  unfoldable pub step : Happening F → Monitor F → Monitor F
  step (received event) m = handle event m
  step (ended n) m = elim (pick n m.asleep) [
    | none ↦ m
    | some (event, rest) ↦ verify_later event rest m
  ]

  unfoldable pub run : List (Happening F) → Monitor F → Monitor F
  unfolding step
  run [] m = m
  run (x ∷ xs) m = run xs (step x m)
