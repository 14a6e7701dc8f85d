-- ===== src/Sentinel/Cycle.antt =====
-- The inference cycle of apps/agents/sentinel/main.py: what is published about a device, and what
-- is held back as a repetition. The windows are read at one moment for each device.
use dcops.Base.{
  ℕ, ◌+◌, String, Bool, true, false, ◌&&◌, Option, none, some, List, [], ◌∷◌, ltb, str_eq, str_mem,
  if◌then◌else◌,
}
use dcops.Base.Result.{Result, ok, err}
use dcops.Value.{Value, Dict, lookup, get_or}
use dcops.Sentinel.Window.{Windows, recent, ingest}
use dcops.Sentinel.Values.{last_of}
use dcops.Sentinel.Decision.{Decision, PredictedFailure, Setting, decide}

-- What the clocks and the bus give for one device of a batch: the wall clock, the monotonic clock
-- at the check and at the mark, and whether the publication works.
pub record Moment : Type 0 where
  pub now : ℕ
  pub checked : ℕ
  pub marked : ℕ
  pub publish_ok : Bool

-- A prediction that `_publish` was called for.
pub record Entry : Type 0 where
  pub device : String
  pub kind : String
  pub checked : ℕ
  pub marked : ℕ

abbrev pub Marks : Type 0
Marks = List ((String × String) × ℕ)

abbrev pub same_key : String × String → String × String → Bool
same_key (d, k) (e, j) = str_eq d e && str_eq k j

-- The state: `store`, `_dirty`, `_recent_publishes`, the predictions on the bus, and the calls of
-- `_publish` so far, the latest first.
pub record State (F : Type 0) : Type 0 where
  pub windows : Windows
  pub dirty : List String
  pub recent_publishes : Marks
  pub sent : List (PredictedFailure F)
  pub entries : List Entry

unfoldable pub last_mark : String × String → Marks → Option ℕ
last_mark key [] = none
last_mark key ((j, t) ∷ marks) = if same_key key j then some t else last_mark key marks

unfoldable pub set_mark : String × String → ℕ → Marks → Marks
set_mark key t [] = (key, t) ∷ []
set_mark key t ((j, u) ∷ marks) =
    if same_key key j then (key, t) ∷ marks else (j, u) ∷ set_mark key t marks

-- `(now - ts) < _DEDUPE_WINDOW_S`, where the clock does not run backwards.
unfoldable pub is_duplicate : ℕ → ℕ → String × String → Marks → Bool
unfolding last_mark
is_duplicate window now key marks = elim (last_mark key marks) [
  | none ↦ false
  | some ts ↦ ltb now (ts + window)
]

-- `_classify_device_type`
unfoldable pub classify_device_type : List Dict → Option String → String
classify_device_type [] none = "unknown"
classify_device_type [] (some t) = t
classify_device_type (e ∷ es) found = elim (lookup "device_type" e) [
  | some (Value.str t) ↦ classify_device_type es (some t)
  | _ ↦ classify_device_type es found
]

module _ {F : Type 0} (set : Setting F) where
  -- `_publish`: the event, of the last telemetry event.
  unfoldable pub prediction : Decision F → List Dict → PredictedFailure F
  unfolding classify_device_type
  prediction d events =
      let last : Dict = elim (last_of events) [ none ↦ [] | some e ↦ e ] in
      record {
        site_id = get_or "site_id" (Value.str set.site_id) last;
        device_id = get_or "device_id" (Value.str "unknown") last;
        device_type = classify_device_type events none;
        failure_kind = d.failure_kind;
        probability = d.probability;
        horizon_hours = d.horizon_hours;
        evidence = d.evidence;
        source = d.source;
      }

  -- The mark is set whether or not the bus took the event.
  unfoldable pub publish : Moment → String → PredictedFailure F → State F → State F
  unfolding set_mark
  publish m device_id p s = record s {
    recent_publishes = set_mark (device_id, p.failure_kind) m.marked s.recent_publishes;
    sent = if m.publish_ok then p ∷ s.sent else s.sent;
    entries =
        record { device = device_id; kind = p.failure_kind; checked = m.checked; marked = m.marked }
        ∷ s.entries;
  }

  -- The part of the loop body after the decision: whether it raised, and the state.
  unfoldable pub act :
      Moment → String → List Dict → Result (Option (Decision F)) → State F → Bool × State F
  unfolding is_duplicate prediction publish
  act m device_id events (err e) s = (true, s)
  act m device_id events (ok none) s = (false, s)
  act m device_id events (ok (some d)) s =
      if is_duplicate set.dedupe_window m.checked (device_id, d.failure_kind) s.recent_publishes
      then (false, s)
      else if set.is_valid (prediction d events)
      then (false, publish m device_id (prediction d events) s)
      else (true, s)

  unfoldable pub score_events : Moment → String → List Dict → State F → Bool × State F
  unfolding act decide
  score_events m device_id [] s = (false, s)
  score_events m device_id (e ∷ es) s = act m device_id (e ∷ es) (decide set (e ∷ es)) s

  -- The body of the loop of `_infer_batch`; a device without a window has no events.
  unfoldable pub infer_device : Moment → String → State F → Bool × State F
  unfolding score_events
  infer_device m device_id s =
      let seen = recent set.parse set.max_age m.now device_id s.windows in
      score_events m device_id seen.0 (record s { windows = seen.1 })

  -- The devices of a batch, in the order of the set; an exception ends it.
  unfoldable pub infer_batch : List (Moment × String) → State F → State F
  unfolding infer_device
  infer_batch [] s = s
  infer_batch ((m, device_id) ∷ batch) s =
      let step = infer_device m device_id s in
      let rest = infer_batch batch step.1 in if step.0 then step.1 else rest

  -- One round of `_inference_loop`: `_dirty` is emptied first.
  unfoldable pub cycle : List (Moment × String) → State F → State F
  unfolding infer_batch
  cycle batch s = infer_batch batch (record s { dirty = [] })

  -- `handle`
  unfoldable pub receive : ℕ → Dict → State F → State F
  receive maxlen event s =
      let (device_id, windows) = ingest maxlen event s.windows in
      record s {
        windows = windows;
        dirty = elim device_id [
          | none ↦ s.dirty
          | some d ↦ if str_mem d s.dirty then s.dirty else d ∷ s.dirty
        ];
      }

-- What happens to the agent: an event of the bus, or a round of the loop.
pub data Step : Type 0 where
  receives : Dict → Step
  infers : List (Moment × String) → Step

module _ {F : Type 0} (set : Setting F) (maxlen : ℕ) where
  unfoldable pub run : List Step → State F → State F
  unfolding cycle receive
  run [] s = s
  run (receives event ∷ steps) s = run steps (receive set maxlen event s)
  run (infers batch ∷ steps) s = run steps (cycle set batch s)

abbrev pub fresh_state : {F : Type 0} → State F
fresh_state = record { windows = []; dirty = []; recent_publishes = []; sent = []; entries = [] }
