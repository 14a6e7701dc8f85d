-- ===== src/Agent/Life.antt =====
-- `BaseAgent.serve`, its signal handlers and `_heartbeat_loop` of apps/agents/shared/base.py. The
-- loop and the heartbeat task are two coroutines that share `_stop`; a step is what one of them
-- does between two waits, with `handle` as one step.
use dcops.Base.{String, Bool, true, false, ◌&&◌, List, [], ◌∷◌, str_append, if◌then◌else◌}
use dcops.Base.Int.{ℤ}
use dcops.Value.{Value, str, int, mapping, field, end}

-- A subclass: its name, the site and the process, what `handle` does to its state (an exception is
-- only logged), whether the bus has a client, `json.dumps`, and a float as a value of JSON.
pub record Agent (E S F : Type 0) : Type 0 where
  pub name : String
  pub site_id : String
  pub pid : ℤ
  pub handle : E → S → S
  pub has_client : Bool
  pub dumps : Value → String
  pub number : F → Value

-- `_stop`, whether `serve` is in its loop, whether the heartbeat task runs, the subclass's state,
-- and what the agent wrote to Redis, key and text, the latest first.
pub record Life (S : Type 0) : Type 0 where
  pub stop : Bool
  pub serving : Bool
  pub beating : Bool
  pub state : S
  pub written : List (String × String)

pub data Step (E F : Type 0) : Type 0 where
  -- SIGINT or SIGTERM, where its handler could be installed.
  signals : Step E F
  -- The subscription yields an event.
  receives : E → Step E F
  -- The subscription ends or raises.
  closes : Step E F
  -- The heartbeat task begins a round, by the clock's reading; whether Redis takes what it writes.
  beats : F → Bool → Step E F

abbrev pub started : {S : Type 0} → S → Life S
started s = record { stop = false; serving = true; beating = true; state = s; written = [] }

-- `heartbeat_key`
abbrev pub heartbeat_key : String → String → String
heartbeat_key site_id agent_name =
    str_append "agent:" (str_append site_id (str_append ":" (str_append agent_name ":heartbeat")))

module _ {E S F : Type 0} (agent : Agent E S F) where
  abbrev pub payload : F → Value
  payload now = mapping (
      field "agent" (str agent.name) (
        field "site_id" (str agent.site_id)
          (field "last_seen_ts" (agent.number now) (field "pid" (int agent.pid) end))))

  -- The `finally` of `serve`.
  abbrev pub leave : Life S → Life S
  leave l = record l { serving = false; beating = false }

  -- The body of the loop of `serve`.
  unfoldable pub receive : E → Life S → Life S
  receive event l = if l.stop then leave l else record l { state = agent.handle event l.state }

  -- A round of `_heartbeat_loop`, up to its sleep.
  unfoldable pub beat : F → Bool → Life S → Life S
  beat now taken l =
      if l.stop
      then record l { beating = false }
      else if agent.has_client && taken
      then record l {
        written = (heartbeat_key agent.site_id agent.name, agent.dumps (payload now)) ∷ l.written;
      }
      else l

  unfoldable pub step : Step E F → Life S → Life S
  unfolding receive beat
  step signals l = record l { stop = true }
  step (receives event) l = if l.serving then receive event l else l
  step closes l = if l.serving then leave l else l
  step (beats now taken) l = if l.beating then beat now taken l else l

  unfoldable pub run : List (Step E F) → Life S → Life S
  unfolding step
  run [] l = l
  run (x ∷ xs) l = run xs (step x l)
