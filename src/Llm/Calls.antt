-- ===== src/Llm/Calls.antt =====
-- `LLMRouter.call` of apps/agents/shared/llm_router.py, for calls that overlap: control passes
-- between them only while one waits for the bus or for the back end. So one move below is what a
-- call does between two waits.
use dcops.Base.{
  ℕ, zero, suc, ◌+◌, String, Bool, true, false, not, ◌&&◌, ◌||◌, Option, none, some, List, [], ◌∷◌,
  str_eq, ltb, if◌then◌else◌,
}
use dcops.Llm.Router.{
  ModelTier, haiku, TaskClass, default_tier, Invocation, CallRecord, BudgetExceeded, Settings,
  to_result, to_record,
}

-- What the router did, the latest first: it sent an alert, or made the record of a call, which goes
-- to the log and, where there is a bus that takes it, to the audit stream.
pub data Event : Type 0 where
  alert : BudgetExceeded → Event
  audited : CallRecord → Event

-- Where a call waits: for the alert's publication, or for the back end.
pub data Call : Type 0 where
  alerting : TaskClass → BudgetExceeded → Call
  invoking : TaskClass → ModelTier → Bool → Call

-- `_spent_today_usd`, `_last_reset_date`, `_budget_exceeded_emitted`, the calls that wait, and what
-- was done.
pub record State : Type 0 where
  pub spent_today : ℕ
  pub last_reset_date : String
  pub emitted : Bool
  pub calls : List Call
  pub events : List Event

unfoldable pub fresh_router : String → State
fresh_router today = record {
  spent_today = 0;
  last_reset_date = today;
  emitted = false;
  calls = [];
  events = [];
}

-- `_reset_if_new_day`
unfoldable pub reset_if_new_day : String → State → State
reset_if_new_day today s =
    if str_eq today s.last_reset_date
    then s
    else record s { spent_today = 0; last_reset_date = today; emitted = false }

-- The call at a position, and the others.
unfoldable pub pick : ℕ → List Call → Option (Call × List Call)
pick n [] = none
pick zero (x ∷ xs) = some (x, xs)
pick (suc n) (x ∷ xs) = elim (pick n xs) [ none ↦ none | some (y, ys) ↦ some (y, x ∷ ys) ]

-- A call begins on some day; the alert of a waiting call is published or not; or the back end
-- answers a waiting call (`none` if it raises).
pub data Move : Type 0 where
  begins : TaskClass → Option ModelTier → String → Move
  published : ℕ → Bool → Move
  answered : ℕ → Option Invocation → Move

-- The end of the alert's publication, and whether it succeeded.
unfoldable pub alert_ends : Bool → TaskClass → BudgetExceeded → List Call → State → State
alert_ends ok task exceeded others s = record s {
  emitted = s.emitted || ok;
  calls = invoking task haiku true ∷ others;
  events = if ok then alert exceeded ∷ s.events else s.events;
}

-- A call moves only from where it waits; any other move is no move.
unfoldable pub publish_call : Bool → Option (Call × List Call) → State → State
unfolding alert_ends
publish_call ok (some (alerting task exceeded, others)) s = alert_ends ok task exceeded others s
publish_call ok _ s = s

module _ (c : Settings) where
  unfoldable pub over_budget : State → Bool
  over_budget s = str_eq c.backend "anthropic" && not (ltb s.spent_today c.daily_budget)

  -- `_apply_budget_policy`, up to its wait or to the wait in `_invoke`.
  unfoldable pub apply_budget_policy : TaskClass → ModelTier → State → State
  unfolding over_budget
  apply_budget_policy task requested s =
      if over_budget s
      then if not s.emitted && c.has_bus
        then record s {
          calls =
              alerting task (record {
                site_id = c.site_id;
                agent = c.agent_name;
                spent_usd = s.spent_today;
                budget_usd = c.daily_budget;
                backend = c.backend;
              })
              ∷ s.calls;
        }
        else record s { calls = invoking task haiku true ∷ s.calls }
      else record s { calls = invoking task requested false ∷ s.calls }

  -- `force_tier or DEFAULT_TIER[task_class]`
  abbrev pub requested_tier : TaskClass → Option ModelTier → ModelTier
  requested_tier task none = default_tier task
  requested_tier task (some tier) = tier

  -- The start of `call`.
  unfoldable pub begin : TaskClass → Option ModelTier → String → State → State
  unfolding reset_if_new_day apply_budget_policy
  begin task force today s =
      apply_budget_policy task (requested_tier task force) (reset_if_new_day today s)

  -- The end of a call that the back end answered: `_record_and_audit`.
  unfoldable pub record_and_audit :
      TaskClass → ModelTier → Bool → Invocation → List Call → State → State
  unfolding to_result to_record
  record_and_audit task tier downgraded i others s =
      let result = to_result c tier i in
      record s {
        spent_today = s.spent_today + result.usd_cost;
        calls = others;
        events = audited (to_record c task result downgraded) ∷ s.events;
      }

  unfoldable pub answer_call : Option Invocation → Option (Call × List Call) → State → State
  unfolding record_and_audit
  answer_call (some i) (some (invoking task tier downgraded, others)) s =
      record_and_audit task tier downgraded i others s
  answer_call none (some (invoking task tier downgraded, others)) s = record s { calls = others }
  answer_call _ _ s = s

  unfoldable pub move : Move → State → State
  unfolding begin publish_call answer_call
  move (begins task force today) s = begin task force today s
  move (published n ok) s = publish_call ok (pick n s.calls) s
  move (answered n i) s = answer_call i (pick n s.calls) s

  unfoldable pub run : List Move → State → State
  unfolding move
  run [] s = s
  run (m ∷ ms) s = run ms (move m s)
