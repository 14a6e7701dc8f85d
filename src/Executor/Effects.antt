-- ===== src/Executor/Effects.antt =====
-- What the executor does to its surroundings, and how they answer. The history of effects, the
-- latest first, is the state: whatever answers may depend on all that happened before.
use dcops.Base.{ℕ, String, Bool, Option, List, ◌∷◌}
use dcops.Base.Result.{Result, ok, err}
use dcops.Value.{Value, Dict}
use dcops.Events.{Recommendation, ActionExecuted, ActionRolledBack}
use dcops.Policy.Engine.{Note}

-- What goes over the bus.
pub data Message (F : Type 0) : Type 0 where
  executed : ActionExecuted F → Message F
  for_human : Recommendation → Message F
  rolled_back : ActionRolledBack F → Message F

-- What is done, or tried: a record that Redis refused and a message that the bus refused leave
-- nothing there.
pub data Effect (F : Type 0) : Type 0 where
  post : String → String → Dict → Effect F
  publish : String → Message F → Effect F
  lpush : String → ActionExecuted F → Effect F
  ltrim : String → ℕ → ℕ → Effect F
  select : String → String → List String → Effect F
  new_uuid : ℕ → Effect F
  refused_record : ActionExecuted F → Effect F
  refused_message : String → Message F → Effect F

abbrev pub History : Type 0 → Type 0
History F = List (Effect F)

-- How a query for one average ends.
pub data Average (F : Type 0) : Type 0 where
  raised : Average F
  no_rows : Average F
  not_number : Average F
  number : F → Average F

-- The surroundings: environment variables, the HTTP service (`none` for any exception, else the
-- JSON it answers with), Redis and the bus (false for an exception, the command not carried out),
-- TimescaleDB, `uuid4`, the clock,
-- Pydantic's validation, Python's `float` and `repr`, and the texts of identifiers, exceptions and
-- notes.
pub record Env (F : Type 0) : Type 0 where
  pub base_url : Option String
  pub ts_enabled : Bool
  pub has_client : Bool
  pub http : History F → String → String → Dict → Option Value
  pub http_error : History F → String
  pub redis : History F → Bool
  pub bus : History F → Bool
  pub average : History F → String → String → List String → Average F
  pub uuid4 : History F → ℕ
  pub utc_hour : History F → ℕ
  pub validate : Value → Option Recommendation
  pub to_float : Value → Result Value
  pub uuid_text : ℕ → String
  pub repr : String → String
  pub note_text : Note → String
  pub actions_keep : ℕ

-- A coroutine: it may raise, and what it did before stays done.
abbrev pub Action : Type 0 → Type 0 → Type 0
Action F A = History F → Result A × History F

module _ {F A : Type 0} where
  unfoldable pub pure : A → Action F A
  pure a h = (ok a, h)

  unfoldable pub lift : Result A → Action F A
  lift r h = (r, h)

  unfoldable pub gets : (History F → A) → Action F A
  gets f h = (ok (f h), h)

module _ {F : Type 0} where
  unfoldable pub emit : Effect F → Action F (Unit {0})
  emit e h = (ok tt, e ∷ h)

module _ {F A B : Type 0} where
  abbrev pub continue : Result A → (A → Action F B) → Action F B
  continue (ok a) f h = f a h
  continue (err e) f h = (err e, h)

  infixl 5 ◌>>=◌ ◌>>◌
  -- Opening this opens the steps too.
  unfoldable pub ◌>>=◌ : Action F A → (A → Action F B) → Action F B
  unfolding pure lift gets emit
  ◌>>=◌ m f h = let (r, h') = m h in continue r f h'

  abbrev pub ◌>>◌ : Action F A → Action F B → Action F B
  m >> k = m >>= λ _. k
