-- ===== src/Llm/Tests.antt =====
-- Runs of the router, and the theorems at these inputs.
use dcops.Base.{◌++◌, ◌+◌, ◌≡◌, refl, true, false, none, some, List, [], ◌∷◌, arith}
use dcops.Llm.Router.{
  haiku, sonnet, summarize, rca, deep_reasoning, Invocation, Settings, default_tier,
  resolve_model_id, compute_cost, to_result, to_record,
}
use dcops.Llm.Calls.{
  State, fresh_router, reset_if_new_day, over_budget, apply_budget_policy, begin, alert_ends,
  record_and_audit, pick, Move, begins, published, answered, publish_call, answer_call, move, run,
}
use dcops.Llm.Spending.{total_cost, run-spent_today}
use dcops.Llm.Budget.{Adds, Fast, run-Fast}
use dcops.Llm.Alerts.{alerts_sent, run_twice}

abbrev paid : Settings
paid = record {
  agent_name = "forensic";
  daily_budget = 100;
  backend = "anthropic";
  has_bus = true;
  site_id = "mumbai";
}

abbrev answer : Invocation
answer = record { text = "ok"; model_id = "m"; tokens_in = 10; tokens_out = 8; latency_ms = 5 }

-- The first call spends the budget on the deep tier; the second is moved to the fast one.
abbrev moves : List Move
moves =
    begins deep_reasoning none "d1"
    ∷ answered 0 (some answer)
    ∷ begins rca (some sonnet) "d1"
    ∷ published 0 true
    ∷ answered 0 (some answer)
    ∷ []

downgraded_day :
    let s = run paid moves (fresh_router "d1") in
    (s.spent_today ≡ 200) × (alerts_sent s.events ≡ 1) × (s.emitted ≡ true) × (s.calls ≡ [])
unfolding run move begin reset_if_new_day apply_budget_policy over_budget publish_call alert_ends
    answer_call record_and_audit to_result to_record compute_cost default_tier pick fresh_router
    alerts_sent
downgraded_day = (refl, refl, refl, refl)

coder_model : resolve_model_id (λ name default. default) "ollama" haiku summarize ≡ "llama3.2:3b"
unfolding resolve_model_id
coder_model = refl

-- A call of the day before, answered on the next day, counts for that day.
abbrev next_day : List Move
next_day = answered 1 (some answer) ∷ answered 0 (some answer) ∷ []

run-spent_today_example :
    let before = run paid (begins deep_reasoning none "d1" ∷ moves) (fresh_router "d1") in
    let after =
      run paid
        (begins deep_reasoning none "d1" ∷ moves ++ begins rca none "d2" ∷ next_day)
        (fresh_router "d1") in
    total_cost before.events + after.spent_today ≡ total_cost after.events
run-spent_today_example =
    run-spent_today paid "d1" (begins deep_reasoning none "d1" ∷ moves) next_day rca none "d2" refl
      (tt, (tt, tt))

abbrev used_up : State
used_up = record {
  spent_today = 100;
  last_reset_date = "d1";
  emitted = false;
  calls = [];
  events = [];
}

run-Fast_example : Adds Fast [] (run paid moves used_up).events
run-Fast_example = run-Fast paid "d1" moves used_up refl (omega arith) refl refl (refl, (refl, tt))

run_twice_example :
    alerts_sent
      (run paid
        (begins rca none "d1"
          ∷ begins summarize none "d1"
          ∷ published 0 true
          ∷ published 1 true
          ∷ [])
        used_up).events
    ≡ alerts_sent used_up.events + 2
run_twice_example = run_twice paid rca summarize none used_up refl (omega arith) refl refl refl
