-- ===== src/Normalizers/Telemetry.antt =====
-- `TelemetryEvent` of apps/ingestion/schema.py, and what a poll of apps/ingestion/normalizers does:
-- it reads URLs, and each event that it yields is published at once by the loop that runs it. The
-- event's timestamp, the moment of its construction, is not a field here.
use dcops.Base.{String, Bool, Option, none, some, List, [], ◌∷◌, str_eq, str_append, if◌then◌else◌}
use dcops.Base.Result.{Result, ok, err, type_error, value_error, runtime_error}
use dcops.Value.{Value, Dict, nil, null, str, get_or, to_dict, to_list, truthy}

pub data DeviceType : Type 0 where
  server gpu switch pdu crac sensor : DeviceType

pub data Severity : Type 0 where
  info warn error critical : Severity

-- `DeviceType.value`
abbrev pub type_text : DeviceType → String
type_text server = "server"
type_text gpu = "gpu"
type_text switch = "switch"
type_text pdu = "pdu"
type_text crac = "crac"
type_text sensor = "sensor"

-- `F` is the type of floats, and a metric is the value of its member of `CanonicalMetric`.
pub record TelemetryEvent (F : Type 0) : Type 0 where
  pub site_id : String
  pub hall_id : String
  pub rack_id : String
  pub device_id : String
  pub device_type : DeviceType
  pub metric : String
  pub value : F
  pub unit : Option String
  pub severity : Severity
  pub metadata : Dict

-- What the service does: it reads a URL, publishes an event on a topic, and sleeps.
pub data Effect (F : Type 0) : Type 0 where
  get : String → Effect F
  publish : String → TelemetryEvent F → Effect F
  sleep : Effect F

-- The latest effect first.
abbrev pub History : Type 0 → Type 0
History F = List (Effect F)

-- The surroundings: environment variables, the answer of a URL (`null` for a failure and for JSON's
-- null), whether Redis takes a message, the text that Pydantic makes of a value for a field of type
-- `str`, `float` of a number and of a decimal text, and the floats 0.0 and 1.0 with the test
-- `0 < x`.
pub record Net (F : Type 0) : Type 0 where
  pub getenv : String → Option String
  pub get_json : History F → String → Value
  pub get_text : History F → String → Option String
  pub accepts : History F → Bool
  pub text_field : Value → Option String
  pub float : Value → Result F
  pub float_of_text : String → F
  pub zero : F
  pub one : F
  pub positive : F → Bool

-- `hash(v)` as the look-up of a key in a dict or a set does it.
abbrev pub hashed : Value → Result Value
hashed (Value.seq vs) = err type_error
hashed (Value.mapping fs) = err type_error
hashed v = ok v

-- `v or default`
abbrev pub or_value : Value → Value → Value
or_value v default = if truthy v then v else default

-- `d.get(k)`
abbrev pub get_field : String → Dict → Value
get_field k d = get_or k null d

-- What is done on a history, which an exception leaves as it is by then.
abbrev pub Poll : Type 0 → Type 0 → Type 0
Poll F A = History F → Result A × History F

module _ {F A : Type 0} where
  abbrev pub pure : A → Poll F A
  pure a h = (ok a, h)

  abbrev pub lift : Result A → Poll F A
  lift r h = (r, h)

  abbrev pub resume : {B : Type 0} → Result A → (A → Poll F B) → Poll F B
  resume (ok a) next h = next a h
  resume (err e) next h = (err e, h)

module _ {F A B : Type 0} where
  infixl 5 ◌>>=◌
  unfoldable pub ◌>>=◌ : Poll F A → (A → Poll F B) → Poll F B
  ◌>>=◌ m next h = let (r, h') = m h in resume r next h'

infixl 5 ◌>>◌
abbrev pub ◌>>◌ : {F B : Type 0} → Poll F (Unit {0}) → Poll F B → Poll F B
m >> next = m >>= λ _. next

module _ {F A : Type 0} where
  -- `for x in xs: body(x)`
  unfoldable pub for_each : List A → (A → Poll F (Unit {0})) → Poll F (Unit {0})
  for_each [] body = pure tt
  for_each (x ∷ xs) body = do body x; for_each xs body

module _ {F : Type 0} where
  -- `for x in d.get(k, []): body(x)`, where each item is a mapping.
  unfoldable pub for_items : String → Dict → (Dict → Poll F (Unit {0})) → Poll F (Unit {0})
  for_items k d body = do
    xs ← lift (to_list (get_or k (Value.seq nil) d))
    for_each xs (λ x. do fields ← lift (to_dict x); body fields)

  -- What is done with an answer that is there: `if answer:`, and then calls of `answer.get`.
  unfoldable pub if_there : Value → (Dict → Poll F (Unit {0})) → Poll F (Unit {0})
  if_there answer body = if truthy answer then lift (to_dict answer) >>= body else pure tt

-- The arguments of an event's construction that are not texts of the code.
pub record Reading (F : Type 0) : Type 0 where
  pub hall_id : Value
  pub rack_id : Value
  pub device_id : Value
  pub device_type : DeviceType
  pub metric : String
  pub value : F
  pub unit : Value
  pub severity : Severity
  pub metadata : Dict

module _ {F : Type 0} (net : Net F) where
  -- `str = Field(..., min_length=1)`; a `ValidationError` is a `ValueError`.
  abbrev pub name_field : Value → Result String
  name_field v = elim (net.text_field v) [
    | none ↦ err value_error
    | some s ↦ if str_eq s "" then err value_error else ok s
  ]

  -- `str | None`
  abbrev pub unit_field : Value → Result (Option String)
  unit_field null = ok none
  unit_field v = elim (net.text_field v) [ none ↦ err value_error | some s ↦ ok (some s) ]

  -- `_site()`
  abbrev pub site : String
  site = elim (net.getenv "SITE_ID") [ none ↦ "unknown" | some s ↦ s ]

  -- `base_url()`
  abbrev pub base_url : Option String
  base_url = net.getenv "MOCKS_BASE_URL"

  -- `f"{bu}{path}" if bu else None`
  abbrev with_path : String → Option String → Option String
  with_path path none = none
  with_path path (some bu) = if str_eq bu "" then none else some (str_append bu path)

  -- `_root()` of the sources but Redfish: the source's own variable, or a path below the mocks.
  abbrev or_mocks : String → Option String → Option String
  or_mocks path none = with_path path base_url
  or_mocks path (some url) = if str_eq url "" then with_path path base_url else some url

  abbrev pub root : String → String → Option String
  root variable path = or_mocks path (net.getenv variable)

  -- `get_json`
  unfoldable pub get_json : String → Poll F Value
  get_json url h = (ok (net.get_json h url), get url ∷ h)

  -- `get_text`
  unfoldable pub get_text : String → Poll F (Option String)
  get_text url h = (ok (net.get_text h url), get url ∷ h)

  -- `TelemetryEvent(site_id=site, ...)`
  unfoldable pub telemetry_event : Reading F → Poll F (TelemetryEvent F)
  telemetry_event r = do
    site_id ← lift (name_field (str site))
    hall_id ← lift (name_field r.hall_id)
    rack_id ← lift (name_field r.rack_id)
    device_id ← lift (name_field r.device_id)
    unit ← lift (unit_field r.unit)
    pure (record {
      site_id = site_id;
      hall_id = hall_id;
      rack_id = rack_id;
      device_id = device_id;
      device_type = r.device_type;
      metric = r.metric;
      value = r.value;
      unit = unit;
      severity = r.severity;
      metadata = r.metadata;
    })

  -- f"telemetry.{name}.{event.device_type.value}"
  abbrev pub topic : String → TelemetryEvent F → String
  topic name event =
      str_append "telemetry." (str_append name (str_append "." (type_text event.device_type)))

  -- The body of the loop over the events of a poll, at one event. Where the bus refuses it, the
  -- loop ends, and with it the poll.
  unfoldable pub publish_event : String → TelemetryEvent F → Poll F (Unit {0})
  publish_event name event h =
      if net.accepts h
      then (ok tt, publish (topic name event) event ∷ h)
      else (err runtime_error, h)

  -- `yield TelemetryEvent(...)`
  unfoldable pub emit : String → Reading F → Poll F (Unit {0})
  emit name r = do event ← telemetry_event r; publish_event name event
