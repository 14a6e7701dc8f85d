-- ===== src/Agent/Tests.antt =====
-- Runs of agents, and the theorems at these inputs.
use mathlib.Core.List.{Memᴰ}
use dcops.Base.{str_mem, ℕ, ◌+◌, ◌≡◌, refl, true, false, ltb, Option, none, some, List, [], ◌∷◌}
use dcops.Base.Int.{pos, ◌+ℤ◌}
use dcops.Base.Result.{ok, err, overflow_error}
use dcops.Value.{str, int, to_dict, fields}
use dcops.Policy.Tests.{language, migration, engine}
use dcops.Store.Timescale.{Pool, execute_select}
use dcops.Executor.Effects.{History}
use dcops.Executor.Agent.{Incoming, model, handle, serve}
use dcops.Executor.Tests.{surroundings}
use dcops.Fleet.Heartbeats.{Surroundings, heartbeat, beat_of}
use dcops.Fleet.View.{
  SiteView, Snapshot, all_ok, build_snapshot, collect, add_beat, finish_all, fresh, missing,
  insert_name, incidents, sort_sites, insert_site,
}
use dcops.Fleet.Sorting.{view_of}
use dcops.Agent.Life.{
  Agent, Step, signals, receives, beats, started, heartbeat_key, payload, receive, beat, step, run,
}
use dcops.Agent.Stopping.{run-signals}
use dcops.Agent.Feeding.{run-serve}
use dcops.Agent.Seen.{Shares, build_snapshot-beats}

-- An agent whose state counts what it receives.
abbrev sentinel : Agent ℕ ℕ ℕ
sentinel = record {
  name = "sentinel";
  site_id = "pune";
  pid = pos 1;
  handle = λ event s. s + event;
  has_client = true;
  dumps = λ v. "{}";
  number = λ t. int (pos t);
}

after_signal :
    (run sentinel (signals ∷ beats 10 true ∷ receives 7 ∷ receives 8 ∷ []) (started 5)).state ≡ 5
unfolding run step receive beat
after_signal = refl

run-signals_example :
    let m = run sentinel (signals ∷ beats 10 true ∷ []) (started 5) in
    let n = run sentinel (signals ∷ beats 10 true ∷ receives 7 ∷ receives 8 ∷ []) (started 5) in
    ((m.serving ≡ true) × (m.state ≡ 5) × (m.written ≡ []))
    × ((n.serving ≡ false) × (n.state ≡ 5) × (n.written ≡ []))
run-signals_example =
    run-signals sentinel (started 5) (beats 10 true ∷ []) 7 (receives 8 ∷ []) refl (tt, tt)

abbrev executor : Agent Incoming (History ℕ) ℕ
executor = record {
  name = "executor";
  site_id = "pune";
  pid = pos 2;
  handle = λ event h. (handle surroundings language engine event h).1;
  has_client = true;
  dumps = λ v. "{}";
  number = λ t. int (pos t);
}

abbrev fed_once : List (Step Incoming ℕ)
fed_once =
    beats 10 true
    ∷ receives (model migration)
    ∷ beats 20 false
    ∷ signals
    ∷ receives (model migration)
    ∷ []

run-serve_example :
    (run executor fed_once (started [])).state
    ≡ serve surroundings language engine (model migration ∷ []) []
run-serve_example = run-serve surroundings language engine executor (λ event h. refl) fed_once []

abbrev world : Surroundings ℕ
world = record {
  scan = ok (heartbeat_key "pune" "sentinel" ∷ []);
  read = λ key. ok (some "{}");
  loads = λ raw. some (payload sentinel 900);
  text_of = λ v. elim v [ str s ↦ s | _ ↦ "?" ];
  float = λ v. elim v [ int (pos n) ↦ ok n | _ ↦ err overflow_error ];
  zero = 0;
  less = ltb;
  is_fresh = ltb 840;
}

abbrev no_pool : Option (Pool ℕ)
no_pool = none

abbrev snapshot : Snapshot ℕ
snapshot = record {
  fleet_status = all_ok;
  n_sites = 1;
  n_live_agents = 1;
  total_incidents = pos 0;
  sites =
      record {
        site_id = "pune";
        live_agents =
            record { site_id = "pune"; agent = "sentinel"; last_seen = 900; pid = int (pos 1) }
            ∷ [];
        most_recent = 900;
        n_live_agents = 1;
        missing_agents = [];
        is_degraded = false;
        incidents_last_hour = pos 0;
      }
      ∷ [];
}

built : build_snapshot world no_pool ("sentinel" ∷ []) true ≡ ok snapshot
unfolding build_snapshot collect heartbeat beat_of to_dict fields add_beat finish_all fresh missing
    insert_name incidents sort_sites insert_site execute_select ◌+ℤ◌
built = refl

shares : Shares sentinel world (step sentinel (beats 900 true) (started 0)) 900
unfolding step beat
shares = record {
  read = refl;
  scanned = Memᴰ.head refl;
  loads = refl;
  text_of = λ s. refl;
  float = refl;
}

build_snapshot-beats_example :
    (v : SiteView ℕ) × (view_of "pune" snapshot.sites ≡ some v)
    × (str_mem "sentinel" v.missing_agents ≡ false)
build_snapshot-beats_example =
    build_snapshot-beats sentinel world (started 0) 900 refl refl refl no_pool ("sentinel" ∷ [])
      snapshot shares refl built
