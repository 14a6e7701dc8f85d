-- ===== src/Fleet/View.antt =====
-- `build_snapshot` of apps/control_plane/fleet_view.py.
use Prim.Native.Nat.{Ordering}
use Prim.Native.String.{compare}
use dcops.Base.{
  ℕ, ◌+◌, String, Bool, true, false, ◌&&◌, Option, none, some, List, [], ◌∷◌, ◌++◌, map, length,
  any, str_eq, str_mem, if◌then◌else◌,
}
use dcops.Base.Int.{ℤ, pos, ◌+ℤ◌}
use dcops.Base.Result.{Exc, Result, ok, err, ◌>>=◌}
use dcops.Value.{str, is_number, to_int, lookup}
use dcops.Store.Timescale.{Pool, Row, Cell, plain, execute_select}
use dcops.Fleet.Heartbeats.{Beat, Surroundings, heartbeat, keys}

-- One entry of `sites`, while the heartbeats are read.
pub record Site (F : Type 0) : Type 0 where
  pub site_id : String
  pub live_agents : List (Beat F)
  pub most_recent : F

-- One entry at the end.
pub record SiteView (F : Type 0) : Type 0 where
  pub site_id : String
  pub live_agents : List (Beat F)
  pub most_recent : F
  pub n_live_agents : ℕ
  pub missing_agents : List String
  pub is_degraded : Bool
  pub incidents_last_hour : ℤ

pub data FleetStatus : Type 0 where
  all_ok degraded empty : FleetStatus

pub record Snapshot (F : Type 0) : Type 0 where
  pub fleet_status : FleetStatus
  pub n_sites : ℕ
  pub n_live_agents : ℕ
  pub total_incidents : ℤ
  pub sites : List (SiteView F)

-- `sorted(set(xs))` where the texts are inserted one by one.
abbrev pub is_before : String → String → Bool
is_before s t = elim (compare s t) [ Ordering.lt ↦ true | _ ↦ false ]

unfoldable pub insert_name : String → List String → List String
insert_name s [] = s ∷ []
insert_name s (t ∷ ts) =
    if str_eq s t then t ∷ ts else if is_before s t then s ∷ t ∷ ts else t ∷ insert_name s ts

-- `sorted(set(expected) - live)`
unfoldable pub missing : List String → List String → List String
unfolding insert_name
missing [] live = []
missing (a ∷ expected) live =
    if str_mem a live then missing expected live else insert_name a (missing expected live)

module _ {D : Type 0} (pool : Option (Pool D)) where
  abbrev number_in : Option (Cell D) → Result ℤ
  number_in (some (plain v)) = if is_number v then to_int v else ok (pos 0)
  number_in _ = ok (pos 0)

  abbrev count_in : Result (List (Row D)) → Result ℤ
  count_in (ok (r ∷ rows)) = number_in (lookup "c" r)
  count_in _ = ok (pos 0)

  -- The incidents of a site in the last hour, 0 without the store or after an exception.
  unfoldable pub incidents : String → Result ℤ
  unfolding execute_select to_int
  incidents site_id =
      count_in
        (execute_select pool
          "SELECT COUNT(*) AS c FROM incidents WHERE site_id = %s AND opened_at >= NOW() - INTERVAL '1 hour'"
          (some (plain (str site_id) ∷ [])) 1).0

abbrev is_some_missing : List String → Bool
is_some_missing [] = false
is_some_missing (a ∷ absent) = true

module _ {F : Type 0} where
  -- `sorted(..., key=lambda s: s["site_id"])`: a later entry goes in front of no equal one.
  unfoldable pub insert_site : SiteView F → List (SiteView F) → List (SiteView F)
  insert_site v [] = v ∷ []
  insert_site v (w ∷ views) =
      if is_before w.site_id v.site_id then w ∷ insert_site v views else v ∷ w ∷ views

  unfoldable pub sort_sites : List (SiteView F) → List (SiteView F)
  unfolding insert_site
  sort_sites [] = []
  sort_sites (v ∷ views) = insert_site v (sort_sites views)

  abbrev pub total_live : List (SiteView F) → ℕ
  total_live [] = 0
  total_live (v ∷ views) = v.n_live_agents + total_live views

  abbrev total_incidents : List (SiteView F) → ℤ
  total_incidents [] = pos 0
  total_incidents (v ∷ views) = v.incidents_last_hour +ℤ total_incidents views

  abbrev status : List (SiteView F) → FleetStatus
  status [] = empty
  status (v ∷ views) =
      if any (λ (w : SiteView F). w.is_degraded) (v ∷ views) then degraded else all_ok

  abbrev pub snapshot_of : List (SiteView F) → Snapshot F
  snapshot_of views = record {
    fleet_status = status views;
    n_sites = length views;
    n_live_agents = total_live views;
    total_incidents = total_incidents views;
    sites = sort_sites views;
  }

module _ {F : Type 0} (world : Surroundings F) where
  -- `max(x, y)` of floats: the second only where it is greater.
  abbrev max_of : F → F → F
  max_of x y = if world.less x y then y else x

  -- `sites.setdefault(...)`, and what is put into the entry.
  unfoldable pub add_beat : Beat F → List (Site F) → List (Site F)
  add_beat b [] =
      record {
        site_id = b.site_id;
        live_agents = b ∷ [];
        most_recent = max_of world.zero b.last_seen;
      }
      ∷ []
  add_beat b (s ∷ sites) =
      if str_eq s.site_id b.site_id
      then record s {
        live_agents = s.live_agents ++ b ∷ [];
        most_recent = max_of s.most_recent b.last_seen;
      }
        ∷ sites
      else s ∷ add_beat b sites

  -- The loop over the keys.
  unfoldable pub collect : List String → List (Site F) → Result (List (Site F))
  unfolding heartbeat add_beat
  collect [] sites = ok sites
  collect (key ∷ ks) sites = elim (heartbeat world key) [
    | err e ↦ err e
    | ok none ↦ collect ks sites
    | ok (some b) ↦ collect ks (add_beat b sites)
  ]

  -- The agents whose heartbeats are not stale.
  unfoldable pub fresh : List (Beat F) → List (Beat F)
  fresh [] = []
  fresh (b ∷ beats) = if world.is_fresh b.last_seen then b ∷ fresh beats else fresh beats

  abbrev pub names : List (Beat F) → List String
  names beats = map (λ (b : Beat F). b.agent) beats

  -- What is made of an entry after the heartbeats were read.
  abbrev pub finish : List String → Site F → ℤ → SiteView F
  finish expected s n =
      let live : List (Beat F) = fresh s.live_agents in
      let absent : List String = missing expected (names live) in
      record {
        site_id = s.site_id;
        live_agents = live;
        most_recent = s.most_recent;
        n_live_agents = length live;
        missing_agents = absent;
        is_degraded = is_some_missing absent;
        incidents_last_hour = n;
      }

  module _ {D : Type 0} (pool : Option (Pool D)) (expected : List String) where
    unfoldable pub finish_all : List (Site F) → Result (List (SiteView F))
    unfolding incidents fresh missing
    finish_all [] = ok []
    finish_all (s ∷ sites) = do
      n ← incidents pool s.site_id
      views ← finish_all sites
      ok (finish expected s n ∷ views)

    -- `build_snapshot`, without the text of the time. A client is there or not.
    unfoldable pub build_snapshot : Bool → Result (Snapshot F)
    unfolding collect finish_all sort_sites
    build_snapshot has_client = do
      sites ← if has_client then collect (keys world) [] else ok []
      views ← finish_all sites
      ok (snapshot_of views)

-- One round of `run_fleet_view`: what it reads, and whether the snapshot can be stored, which an
-- exception of Redis only logs.
pub record Round (F D : Type 0) : Type 0 where
  pub world : Surroundings F
  pub pool : Option (Pool D)
  pub stores : Bool

module _ {F D : Type 0} (expected : List String) (has_client : Bool) where
  -- The snapshots that the loop stores, and the exception that ends it, if one does.
  unfoldable pub run_fleet_view : List (Round F D) → List (Snapshot F) × Option Exc
  unfolding build_snapshot
  run_fleet_view [] = ([], none)
  run_fleet_view (r ∷ rounds) = elim (build_snapshot r.world r.pool expected has_client) [
    | err e ↦ ([], some e)
    | ok s ↦
        let (stored, raised) = run_fleet_view rounds in
        (if has_client && r.stores then s ∷ stored else stored, raised)
  ]
