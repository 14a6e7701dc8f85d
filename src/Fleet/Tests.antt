-- ===== src/Fleet/Tests.antt =====
-- Snapshots of concrete heartbeats, and the theorems at these.
use mathlib.Core.List.{Memᴰ}
use dcops.Base.{
  ℕ, ◌≡◌, refl, String, true, ltb, str_eq, if◌then◌else◌, Option, none, some, List, [], ◌∷◌,
}
use dcops.Base.Int.{pos, ◌+ℤ◌}
use dcops.Base.Result.{Exc, ok, err, attribute_error, overflow_error}
use dcops.Value.{Value, null, int, str, mapping, field, end, fields, to_dict}
use dcops.Store.Timescale.{Pool, execute_select}
use dcops.Fleet.Heartbeats.{
  Beat, Surroundings, expected_agents, split_commas, stripped, heartbeat, beat_of, keys,
}
use dcops.Fleet.View.{
  Snapshot, Round, degraded, build_snapshot, collect, add_beat, finish_all, fresh, missing,
  insert_name, incidents, sort_sites, insert_site, run_fleet_view,
}
use dcops.Fleet.Sites.{heartbeats}
use dcops.Fleet.Counts.{Counts, build_snapshot-Counts, run_fleet_view-no_mapping}

abbrev stored : String → Option String
stored key =
    if str_eq key "agent:pune:sentinel:heartbeat"
    then some "sentinel"
    else if str_eq key "agent:pune:planner:heartbeat"
    then some "planner"
    else if str_eq key "agent:pune:broken:heartbeat"
    then some "7"
    else none

abbrev loads : String → Option Value
loads raw =
    if str_eq raw "7"
    then some (int (pos 7))
    else some (
        mapping (
          field "site_id" (str "pune") (
            field "agent" (str raw)
              (field "last_seen_ts" (int (pos (if str_eq raw "planner" then 100 else 900))) end))))

abbrev at : List String → Surroundings ℕ
at ks = record {
  scan = ok ks;
  read = λ key. ok (stored key);
  loads = loads;
  text_of = λ v. elim v [ str s ↦ s | _ ↦ "?" ];
  float = λ v. elim v [ int (pos n) ↦ ok n | _ ↦ err overflow_error ];
  zero = 0;
  less = ltb;
  is_fresh = ltb 840;
}

abbrev two : Surroundings ℕ
two = at ("agent:pune:sentinel:heartbeat" ∷ "agent:pune:planner:heartbeat" ∷ "gone" ∷ [])

abbrev no_pool : Option (Pool ℕ)
no_pool = none

abbrev sentinel : Beat ℕ
sentinel = record { site_id = "pune"; agent = "sentinel"; last_seen = 900; pid = null }

-- The planner of the site is stale.
abbrev snapshot : Snapshot ℕ
snapshot = record {
  fleet_status = degraded;
  n_sites = 1;
  n_live_agents = 1;
  total_incidents = pos 0;
  sites =
      record {
        site_id = "pune";
        live_agents = sentinel ∷ [];
        most_recent = 900;
        n_live_agents = 1;
        missing_agents = "planner" ∷ [];
        is_degraded = true;
        incidents_last_hour = pos 0;
      }
      ∷ [];
}

built : build_snapshot two no_pool ("sentinel" ∷ "planner" ∷ []) true ≡ ok snapshot
unfolding build_snapshot collect heartbeat beat_of to_dict fields add_beat finish_all fresh missing
    insert_name incidents sort_sites insert_site execute_select ◌+ℤ◌
built = refl

named_agents : expected_agents (some " planner,, sentinel ") ≡ "planner" ∷ "sentinel" ∷ []
unfolding expected_agents split_commas stripped
named_agents = refl

build_snapshot-Counts_example :
    (beats : List (Beat ℕ)) × (heartbeats two (keys two) ≡ ok beats)
    × Counts two ("sentinel" ∷ "planner" ∷ []) beats snapshot
build_snapshot-Counts_example =
    build_snapshot-Counts two no_pool ("sentinel" ∷ "planner" ∷ []) snapshot built

abbrev with_broken : Surroundings ℕ
with_broken = at ("agent:pune:sentinel:heartbeat" ∷ "agent:pune:broken:heartbeat" ∷ [])

not_a_mapping : to_dict (int (pos 7)) ≡ err attribute_error
unfolding to_dict
not_a_mapping = refl

abbrev round_in : Surroundings ℕ → Round ℕ ℕ
round_in world = record { world = world; pool = none; stores = true }

run_fleet_view-no_mapping_example :
    (e : Exc) × (run_fleet_view ("sentinel" ∷ []) true (round_in with_broken ∷ round_in two ∷ [])
      ≡ ([], some e))
run_fleet_view-no_mapping_example =
    run_fleet_view-no_mapping with_broken no_pool ("sentinel" ∷ []) "agent:pune:broken:heartbeat"
      "7" (int (pos 7)) true (round_in two ∷ []) (Memᴰ.tail (Memᴰ.head refl)) refl refl
      not_a_mapping
