-- ===== src/Ingestion/Service.antt =====
-- The whole life of `run_writer` of apps/ingestion/main.py: the two coroutines, what ends them, and
-- the last flush. An exception of the consumer ends `gather`, which leaves the ticker running; a
-- cancellation ends both coroutines, and the database may have carried out the insertions that
-- they were waiting for: the pool commits by itself. An insertion is taken to commit all its rows or
-- none.
use Prim.Native.String.{[], ◌∷◌}
use mathlib.Core.List.{List}
use dcops.Base.{ℕ, Bool, true, false, none, some, map, is_some, Option, if◌then◌else◌}
use dcops.Base.Result.{Result, ok, err, type_error, value_error}
use dcops.Value.{Value, Dict, Items, fields}
use dcops.Ingestion.Writer.{
  Row, row, Writer, empty_writer, insert_telemetry, Move, arrives, consumer_ends, no_events, move,
}

-- Where `run_writer` is: in `gather`, in or after its last flush with the ticker still running, or
-- there with no coroutine left.
pub data Phase : Type 0 where
  working crashed cancelled : Phase

pub record Service : Type 0 where
  pub phase : Phase
  pub writer : Writer

abbrev pub start : Service
start = record { phase = working; writer = empty_writer }

pub data Step : Type 0 where
  -- A move of a coroutine. After `gather`, the consumer's place is that of the last flush.
  moves : Move → Step
  -- The subscription yields what `json.loads` made of a message.
  delivers : Value → Step
  -- The subscription raises.
  breaks : Step
  -- The task is cancelled. Whether the insertion of the consumer, and that of the ticker, if one
  -- waits, has been committed.
  cancels : Bool → Bool → Step

-- A coroutine that is over makes no move.
abbrev pub is_live : Phase → Move → Bool
is_live working m = true
is_live crashed (arrives e) = false
is_live crashed m = true
is_live cancelled (consumer_ends stored) = true
is_live cancelled m = false

-- `_flush("shutdown")`, up to the wait for the database.
unfoldable pub last_flush : Writer → Writer
last_flush w = if no_events w.batch then w else record w { consumer = some (map row w.batch) }

-- Where the consumer waits for an event and gets an exception.
unfoldable pub crash : Service → Service
unfolding last_flush
crash s = elim s.phase [
  | working ↦
      if is_some s.writer.consumer
      then s
      else record { phase = crashed; writer = last_flush s.writer }
  | crashed ↦ s
  | cancelled ↦ s
]

-- The table after an insertion, if one was waited for.
abbrev pub committed : Bool → Option (List Row) → List Row → List Row
committed done none table = table
committed done (some rows) table = insert_telemetry done rows table

-- The cancellation is raised where a coroutine waits, so that no batch is emptied.
abbrev pub interrupted : Bool → Bool → Writer → Writer
interrupted c t w = record w {
  consumer = none;
  ticker = none;
  table = committed t w.ticker (committed c w.consumer w.table);
}

unfoldable pub cancel : Bool → Bool → Service → Service
unfolding last_flush
cancel c t s = elim s.phase [
  | working ↦ record { phase = cancelled; writer = last_flush (interrupted c t s.writer) }
  | crashed ↦ record { phase = cancelled; writer = interrupted c t s.writer }
  | cancelled ↦ record { phase = cancelled; writer = interrupted c t s.writer }
]

module _ (flush_max : ℕ) where
  abbrev pub moved : Move → Service → Service
  moved m s = record s {
    writer = if is_live s.phase m then move flush_max m s.writer else s.writer;
  }

  -- The event, or the exception of its conversion.
  abbrev pub take_in : Result Dict → Service → Service
  take_in (ok e) s = moved (arrives e) s
  take_in (err x) s = crash s

module _ (of_pairs : Items → Result Dict) where
  -- `event if isinstance(event, dict) else dict(event)`, where `of_pairs` is `dict` of a list.
  unfoldable pub dict_of : Value → Result Dict
  unfolding fields
  dict_of (Value.mapping fs) = ok (fields fs)
  dict_of (Value.seq vs) = of_pairs vs
  dict_of (Value.str []) = ok List.[]
  dict_of (Value.str (c ∷ s)) = err value_error
  dict_of _ = err type_error

  module _ (flush_max : ℕ) where
    unfoldable pub step : Step → Service → Service
    unfolding dict_of crash cancel
    step (moves m) s = moved flush_max m s
    step (delivers v) s = take_in flush_max (dict_of v) s
    step breaks s = crash s
    step (cancels c t) s = cancel c t s

    unfoldable pub serve : List Step → Service → Service
    unfolding step
    serve List.[] s = s
    serve (List.◌∷◌ x xs) s = serve xs (step x s)
