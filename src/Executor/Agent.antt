-- ===== src/Executor/Agent.antt =====
-- `ExecutorAgent` of apps/agents/executor/main.py, with the loop of `BaseAgent.serve`
-- (apps/agents/shared/base.py) that feeds it.
use dcops.Base.{
  ℕ, ◌-◌, String, Bool, true, false, Option, none, some, List, [], ◌∷◌, str_eq, str_append,
  if◌then◌else◌,
}
use dcops.Base.Result.{Result, ok, err, value_error}
use dcops.Value.{Value, Dict, to_dict, insert}
use dcops.Events.{Recommendation, ActionExecuted}
use dcops.Policy.Rules.{approved, denied, needs_human, RuleLanguage}
use dcops.Policy.Engine.{PolicyEngine, Note, Outcome, evaluate}
use dcops.Executor.Effects.{
  Env, Action, History, publish, lpush, ltrim, select, new_uuid, refused_record, refused_message,
  Message, executed, for_human, number, pure, lift, gets, emit, ◌>>=◌, ◌>>◌,
}
use dcops.Executor.Actions.{ActionResult, resolve}

-- `_kpi_metrics_for`
unfoldable pub kpi_metrics_for : String → List String
kpi_metrics_for kind =
    if str_eq kind "workload_migration"
    then "env.inlet.celsius" ∷ "env.outlet.celsius" ∷ "power.draw.watts" ∷ "cpu.temp.celsius" ∷ []
    else if str_eq kind "fan_speed_adjust"
    then "cpu.temp.celsius" ∷ "fan.rpm" ∷ []
    else "env.inlet.celsius" ∷ []

-- An event as it comes from the bus: a model instance, or what JSON held.
pub data Incoming : Type 0 where
  model : Recommendation → Incoming
  raw : Value → Incoming

module _ {F : Type 0} (env : Env F) where
  unfoldable pub fresh_uuid : Action F ℕ
  fresh_uuid = do id ← gets env.uuid4; emit (new_uuid id); pure id

  -- `_persist_action`: an exception of either command is logged and dropped.
  unfoldable pub persist_action : ActionExecuted F → Action F (Unit {0})
  persist_action action =
      if env.has_client
      then (do
        pushed ← gets env.redis
        emit (if pushed then lpush "actions:recent" action else refused_record action)
        if pushed then emit (ltrim "actions:recent" 0 (env.actions_keep - 1)) else pure tt)
      else pure tt

  -- A publication: an exception of the bus is logged and dropped.
  unfoldable pub try_publish : String → Message F → Action F (Unit {0})
  try_publish topic message = do
    taken ← gets env.bus
    emit (if taken then publish topic message else refused_message topic message)

  -- The loop of `_snapshot_kpis` over the metrics.
  unfoldable pub snapshot_metrics : Recommendation → List String → Action F (List (String × F))
  snapshot_metrics rec [] = pure []
  snapshot_metrics rec (metric ∷ metrics) = do
    result ← gets (λ h. env.average h rec.site_id metric rec.target_device_ids)
    emit (select rec.site_id metric rec.target_device_ids)
    out ← snapshot_metrics rec metrics
    elim result [ number v ↦ pure ((metric, v) ∷ out) | _ ↦ pure out ]

  -- `_snapshot_kpis`
  unfoldable pub snapshot_kpis : Recommendation → Action F (List (String × F))
  snapshot_kpis rec = elim rec.target_device_ids [
    | [] ↦ pure []
    | device ∷ devices ↦
        if env.ts_enabled then snapshot_metrics rec (kpi_metrics_for rec.kind) else pure []
  ]

  -- The construction of the `ActionExecuted` event.
  abbrev build_executed :
      Recommendation → ℕ → ℕ → Bool → Dict → List (String × F) → Dict → ActionExecuted F
  build_executed rec action_id event_id success payload kpis metadata = record {
    bus_event = record {
      event_id = event_id;
      site_id = rec.site_id;
      trace_id = rec.trace_id;
      parent_event_id = some rec.event_id;
      metadata = metadata;
    };
    recommendation_id = rec.recommendation_id;
    action_id = action_id;
    success = success;
    response_payload = payload;
    pre_action_kpis = kpis;
  }

  -- Pydantic's `dict[str, Any]`: a `ValidationError` is a `ValueError`.
  abbrev validated_payload : Value → Result Dict
  validated_payload v = elim (to_dict v) [ ok d ↦ ok d | err e ↦ err value_error ]

  -- `_record_denied`
  unfoldable pub record_denied : Recommendation → String → Action F (Unit {0})
  unfolding fresh_uuid
  record_denied rec reason = do
    action_id ← fresh_uuid
    event_id ← fresh_uuid
    persist_action (
        build_executed rec action_id event_id false
          (("denied", Value.bool true) ∷ ("reason", Value.str reason) ∷ []) []
          (("kind", Value.str rec.kind) ∷ ("denied_reason", Value.str reason) ∷ []))

  -- `_publish_needs_human`
  unfoldable pub publish_needs_human : Recommendation → String → Action F (Unit {0})
  publish_needs_human rec reason = try_publish "actions.needs_human" (
      for_human (record rec {
        bus_event = record rec.bus_event {
          metadata = insert "policy_reason" (Value.str reason) rec.metadata;
        };
      }))

  -- The event of an action that was tried.
  abbrev pub report : Recommendation → ℕ → ℕ → Bool → Dict → List (String × F) → ActionExecuted F
  report rec action_id event_id success payload pre_kpis =
      build_executed rec action_id event_id success payload pre_kpis
        (("kind", Value.str rec.kind) ∷ ("agent", Value.str "executor") ∷ [])

  -- `_execute` from the handler on.
  unfoldable pub run_handler :
      Recommendation → (Recommendation → ℕ → Action F ActionResult) → Action F (Unit {0})
  unfolding fresh_uuid
  run_handler rec handler = do
    action_id ← fresh_uuid
    pre_kpis ← snapshot_kpis rec
    result ← handler rec action_id
    payload ← lift (validated_payload result.1)
    event_id ← fresh_uuid
    let event = report rec action_id event_id result.0 payload pre_kpis
    try_publish "actions.executed" (executed event)
    persist_action event

  abbrev pub no_handler : Recommendation → String
  no_handler rec = str_append "no handler for kind " (env.repr rec.kind)

  -- `_execute`
  unfoldable pub execute : Recommendation → Action F (Unit {0})
  execute rec = elim (resolve env rec.kind) [
    | none ↦ record_denied rec (no_handler rec)
    | some handler ↦ run_handler rec handler
  ]

  -- `reason or ""`
  abbrev reason_text : Option Note → String
  reason_text none = ""
  reason_text (some n) = env.note_text n

  -- What `handle` does with the decision.
  unfoldable pub dispatch : Recommendation → Outcome → Action F (Unit {0})
  dispatch rec (approved, reason, applied) = execute rec
  dispatch rec (denied, reason, applied) = record_denied rec (reason_text reason)
  dispatch rec (needs_human, reason, applied) = publish_needs_human rec (reason_text reason)

  -- `_parse`
  unfoldable pub parse : Incoming → Option Recommendation
  parse (model rec) = some rec
  parse (raw (Value.mapping fs)) = env.validate (Value.mapping fs)
  parse (raw v) = none

module _ {F : Type 0} (env : Env F) (lang : RuleLanguage) (engine : PolicyEngine) where
  -- `handle` on a parsed event.
  unfoldable pub handle_recommendation : Recommendation → Action F (Unit {0})
  handle_recommendation rec = do
    now ← gets env.utc_hour
    outcome ← lift (evaluate lang engine rec now)
    dispatch env rec outcome

  -- `handle`
  unfoldable pub handle : Incoming → Action F (Unit {0})
  handle event = elim (parse env event) [ none ↦ pure tt | some rec ↦ handle_recommendation rec ]

  -- The loop of `BaseAgent.serve`: an exception of `handle` is logged, and the loop goes on.
  unfoldable pub serve : List Incoming → History F → History F
  serve [] h = h
  serve (event ∷ events) h = serve events (handle event h).1
