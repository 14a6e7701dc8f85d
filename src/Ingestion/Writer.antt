-- ===== src/Ingestion/Writer.antt =====
-- `run_writer` of apps/ingestion/main.py and `insert_telemetry` of apps/agents/shared/ts_client.py.
-- Two coroutines share `batch`: the consumer and the ticker. Control passes between them only where
-- one of them waits: for an event, for the timer, or for the database inside a flush. So one move
-- below is what a coroutine does between two waits.
use dcops.Base.{
  ℕ, Bool, true, false, not, ◌&&◌, Option, none, some, List, [], ◌∷◌, ◌++◌, map, length, leb,
  is_some, if◌then◌else◌,
}
use dcops.Value.{Value, Dict, end, lookup, get_or}

-- One row of the hypertable.
pub record Row : Type 0 where
  pub time : Option Value
  pub site_id : Option Value
  pub hall_id : Option Value
  pub rack_id : Option Value
  pub device_id : Option Value
  pub device_type : Option Value
  pub metric : Option Value
  pub value_num : Option Value
  pub value_str : Option Value
  pub unit : Option Value
  pub severity : Value
  pub metadata : Value

-- `value if isinstance(value, (int, float)) else None`
abbrev as_number : Option Value → Option Value
as_number (some (Value.bool b)) = some (Value.bool b)
as_number (some (Value.int n)) = some (Value.int n)
as_number (some (Value.real s m k)) = some (Value.real s m k)
as_number (some (Value.infinite s)) = some (Value.infinite s)
as_number (some Value.not_a_number) = some Value.not_a_number
as_number _ = none

-- `value if isinstance(value, str) else None`
abbrev as_text : Option Value → Option Value
as_text (some (Value.str s)) = some (Value.str s)
as_text _ = none

-- `_row`
unfoldable pub row : Dict → Row
row e = record {
  time = lookup "timestamp" e;
  site_id = lookup "site_id" e;
  hall_id = lookup "hall_id" e;
  rack_id = lookup "rack_id" e;
  device_id = lookup "device_id" e;
  device_type = lookup "device_type" e;
  metric = lookup "metric" e;
  value_num = as_number (lookup "value" e);
  value_str = as_text (lookup "value" e);
  unit = lookup "unit" e;
  severity = get_or "severity" (Value.str "info") e;
  metadata = get_or "metadata" (Value.mapping end) e;
}

-- `batch`, the rows that a flush of the consumer or of the ticker is inserting, and the table.
pub record Writer : Type 0 where
  pub batch : List Dict
  pub consumer : Option (List Row)
  pub ticker : Option (List Row)
  pub table : List Row

abbrev pub empty_writer : Writer
empty_writer = record { batch = []; consumer = none; ticker = none; table = [] }

pub data Move : Type 0 where
  -- The consumer gets an event.
  arrives : Dict → Move
  -- The ticker wakes; whether `elapsed` has reached the interval.
  wakes : Bool → Move
  -- The consumer's or the ticker's insertion ends; whether it succeeded.
  consumer_ends : Bool → Move
  ticker_ends : Bool → Move

abbrev pub no_events : List Dict → Bool
no_events [] = true
no_events (e ∷ es) = false

-- The body of the loop of `_consume`, up to the wait in its flush. The batch holds the event, so
-- that `_flush` does not return early.
unfoldable pub consume : ℕ → Dict → Writer → Writer
consume flush_max e w =
    let batch : List Dict = w.batch ++ e ∷ [] in
    if leb flush_max (length batch)
    then record w { batch = batch; consumer = some (map row batch) }
    else record w { batch = batch }

-- The body of the loop of `_ticker`, up to the wait in its flush.
unfoldable pub tick : Bool → Writer → Writer
tick due w =
    if not (no_events w.batch) && due then record w { ticker = some (map row w.batch) } else w

-- What the insertion leaves in the table: all rows, or none after an exception.
abbrev pub insert_telemetry : Bool → List Row → List Row → List Row
insert_telemetry ok rows table = if ok then table ++ rows else table

-- A coroutine moves only from where it waits; any other move is no move.
unfoldable pub move : ℕ → Move → Writer → Writer
unfolding consume tick
move flush_max (arrives e) w = if is_some w.consumer then w else consume flush_max e w
move flush_max (wakes due) w = if is_some w.ticker then w else tick due w
move flush_max (consumer_ends ok) w = elim w.consumer [
  | none ↦ w
  | some rows ↦ record w { batch = []; consumer = none; table = insert_telemetry ok rows w.table }
]
move flush_max (ticker_ends ok) w = elim w.ticker [
  | none ↦ w
  | some rows ↦ record w { batch = []; ticker = none; table = insert_telemetry ok rows w.table }
]

unfoldable pub run : ℕ → List Move → Writer → Writer
unfolding move
run flush_max [] w = w
run flush_max (m ∷ ms) w = run flush_max ms (move flush_max m w)
