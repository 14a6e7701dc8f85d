-- ===== src/Rollback/Verify.antt =====
-- `is_regression`, `_extract_devices` and `RollbackAgent._verify` of apps/agents/rollback/main.py.
-- Floats are a type F; the arithmetic on them is a parameter.
use Prim.Native.Char.{code}
use Prim.Native.String.{◌∷◌ as text_cons}
use dcops.Base.{
  str_eq, ℕ, String, Bool, ◌&&◌, Option, none, some, List, [], ◌∷◌, str_mem, str_append, ◌==◌,
  if◌then◌else◌,
}
use dcops.Value.{Value, Items, nil, cons, Fields, end, field, Dict, lookup}
use dcops.Events.{ActionExecuted, ActionRolledBack}
use dcops.Executor.Effects.{Env, Action, select, rolled_back, number, pure, gets, emit, ◌>>=◌, ◌>>◌}
use dcops.Executor.Actions.{ActionResult, revert}
use dcops.Executor.Agent.{fresh_uuid, try_publish}

-- `above x` is x * (1.0 + threshold), `below x` is x * (1.0 - threshold), and `entry` is the text
-- of one regression in the reason.
pub record Floats (F : Type 0) : Type 0 where
  pub lt : F → F → Bool
  pub above : F → F
  pub below : F → F
  pub entry : String → F → F → String

abbrev pub higher_is_better : List String
higher_is_better = "fan.rpm" ∷ "net.port.up" ∷ "psu.efficiency.percent" ∷ []

-- `text.removeprefix("wl-")`
unfoldable pub remove_wl : String → String
remove_wl (text_cons a (text_cons b (text_cons c s))) =
    if code a == b'w' && (code b == b'l' && code c == b'-')
    then s
    else text_cons a (text_cons b (text_cons c s))
remove_wl s = s

lookup_field : String → Fields → Option Value
lookup_field k end = none
lookup_field k (field j v fs) = if str_eq k j then some v else lookup_field k fs

-- The loop over `moves`.
workloads : Items → List String
unfolding remove_wl lookup_field
workloads nil = []
workloads (cons (Value.mapping fs) ms) = elim (lookup_field "workload_id" fs) [
  | some (Value.str wl) ↦ remove_wl wl ∷ workloads ms
  | _ ↦ workloads ms
]
workloads (cons _ ms) = workloads ms

-- `_extract_devices`: a falsy `moves` is taken for the empty list, which gives no device either.
unfoldable pub extract_devices : Dict → List String
unfolding workloads
extract_devices payload =
    let dev : List String = elim (lookup "device_id" payload) [
      | some (Value.str d) ↦ d ∷ []
      | _ ↦ []
    ] in
    elim (lookup "moves" payload) [
      | some (Value.seq ms) ↦ elim (workloads ms) [ [] ↦ dev | d ∷ ds ↦ d ∷ ds ]
      | _ ↦ dev
    ]

-- (metric, pre, post)
abbrev pub Regression : Type 0 → Type 0
Regression F = String × F × F

module _ {F : Type 0} (floats : Floats F) where
  -- `is_regression`
  unfoldable pub is_regression : String → F → F → Bool
  is_regression metric pre post =
      if str_mem metric higher_is_better
      then floats.lt post (floats.below pre)
      else floats.lt (floats.above pre) post

  -- The loop of `_verify`.
  unfoldable pub regressions : List (String × F) → List (String × F) → List (Regression F)
  regressions [] post_kpis = []
  regressions ((metric, pre) ∷ kpis) post_kpis = elim (lookup metric post_kpis) [
    | none ↦ regressions kpis post_kpis
    | some post ↦
        if is_regression metric pre post
        then (metric, pre, post) ∷ regressions kpis post_kpis
        else regressions kpis post_kpis
  ]

  -- The reason: the entries joined by "; ".
  unfoldable pub reason_text : List (Regression F) → String
  reason_text [] = ""
  reason_text ((metric, pre, post) ∷ []) = floats.entry metric pre post
  reason_text ((metric, pre, post) ∷ r ∷ rs) =
      str_append (floats.entry metric pre post) (str_append "; " (reason_text (r ∷ rs)))

module _ {F : Type 0} (env : Env F) where
  -- The loop of `_snapshot_post_kpis`. No device stands for the query over the whole site.
  unfoldable pub snapshot_post :
      String → List String → List (String × F) → Action F (List (String × F))
  snapshot_post site device_ids [] = pure []
  snapshot_post site device_ids ((metric, pre) ∷ kpis) = do
    result ← gets (λ h. env.average h site metric device_ids)
    emit (select site metric device_ids)
    out ← snapshot_post site device_ids kpis
    elim result [ number v ↦ pure ((metric, v) ∷ out) | _ ↦ pure out ]

  -- `_snapshot_post_kpis`
  unfoldable pub snapshot_post_kpis : ActionExecuted F → Action F (List (String × F))
  snapshot_post_kpis event =
      if env.ts_enabled
      then snapshot_post event.site_id (extract_devices event.response_payload)
          event.pre_action_kpis
      else pure []

module _ {F : Type 0} where
  -- The event that tells of the revert, whether the service accepted it or not.
  unfoldable pub build_rolled_back :
      ActionExecuted F → ℕ → String → List (String × F) → ActionResult → ActionRolledBack F
  build_rolled_back event id reason post_kpis result = record {
    bus_event = record {
      event_id = id;
      site_id = event.site_id;
      trace_id = event.trace_id;
      parent_event_id = some event.event_id;
      metadata = ("revert_ok", Value.bool result.0) ∷ ("revert_response", result.1) ∷ [];
    };
    action_id = event.action_id;
    reason = reason;
    pre_action_kpis = event.pre_action_kpis;
    post_action_kpis = post_kpis;
  }

module _ {F : Type 0} (env : Env F) where
  -- The end of `_trigger_revert`: the event is published, or refused by the bus.
  unfoldable pub announce :
      ActionExecuted F → String → List (String × F) → ActionResult → Action F (Unit {0})
  unfolding build_rolled_back
  announce event reason post_kpis result = do
    id ← fresh_uuid env
    try_publish env "actions.rolled_back"
        (rolled_back (build_rolled_back event id reason post_kpis result))

module _ {F : Type 0} (floats : Floats F) (env : Env F) where
  -- `_trigger_revert`
  unfoldable pub trigger_revert :
      ActionExecuted F → List (String × F) → List (Regression F) → Action F (Unit {0})
  unfolding announce
  trigger_revert event post_kpis rs = do
    result ← revert env event.action_id (reason_text floats rs)
    announce env event (reason_text floats rs) post_kpis result

  -- The end of `_verify`, by the regressions found.
  unfoldable pub act_on :
      ActionExecuted F → List (String × F) → List (Regression F) → Action F (Unit {0})
  act_on event post_kpis [] = pure tt
  act_on event post_kpis (r ∷ rs) = trigger_revert event post_kpis (r ∷ rs)

  -- `_verify`
  unfoldable pub verify : ActionExecuted F → Action F (Unit {0})
  unfolding act_on
  verify event = do
    post_kpis ← snapshot_post_kpis env event
    act_on event post_kpis (regressions floats event.pre_action_kpis post_kpis)
