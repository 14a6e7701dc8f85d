-- ===== src/Fleet/Counts.antt =====
-- What a snapshot of apps/control_plane/fleet_view.py says of the heartbeats.
use mathlib.Core.Option.{some-injective}
use dcops.Base.{
  is_some, String, Bool, true, not, ◌&&◌, ◌≡◌, ◌≢◌, refl, sym, ap, ◌∙◌, subst, inl, inr, Bool-cases,
  Option, some, List, [], ◌∷◌, any, str_eq, str_mem, arith,
}
use dcops.Base.Int.{ℤ}
use dcops.Base.Result.{Exc, Result, ok, err, attribute_error, >>=-eq-ok}
use dcops.Value.{Value, to_dict}
use mathlib.Core.List.{Memᴰ}
use dcops.Store.Timescale.{Pool}
use dcops.Fleet.Heartbeats.{Beat, Surroundings, keys, heartbeat, beat_of}
use dcops.Fleet.View.{
  Site, SiteView, Snapshot, fresh, names, incidents, finish, finish_all, total_live, collect,
  snapshot_of, build_snapshot, Round, run_fleet_view,
}
use dcops.Fleet.Missing.{str_mem-missing}
use dcops.Fleet.Sorting.{view_of, view_of-sort_sites}
use dcops.Fleet.Sites.{
  agents_of, is_kept, is_kept-add_all, of_site, count, total, any-of_site, str_mem-names,
  length-fresh, heartbeats, add_all, collect-heartbeats, agents_of-add_all, total-add_all,
}

-- What the heartbeats say, one by one: which agent of which site is alive.
abbrev pub is_alive : {F : Type 0} → Surroundings F → String → String → Beat F → Bool
is_alive world id a b = str_eq b.site_id id && (str_eq a b.agent && world.is_fresh b.last_seen)

pub record Counts {F : Type 0} (world : Surroundings F) (expected : List String)
    (beats : List (Beat F)) (s : Snapshot F) : Type 0 where
  pub live : s.n_live_agents ≡ count (λ b. world.is_fresh b.last_seen) beats
  -- A site is listed just when a heartbeat names it, stale or not.
  pub listed : (id : String) → is_some (view_of id s.sites) ≡ any (λ b. str_eq b.site_id id) beats
  pub absent :
      (id a : String) (v : SiteView F)
      → view_of id s.sites ≡ some v
      → str_mem a v.missing_agents ≡ (str_mem a expected && not (any (is_alive world id a) beats))

module _ {F D : Type 0} (world : Surroundings F) (pool : Option (Pool D))
    (expected : List String) where
  -- One step of the loop that finishes the entries.
  finish_all-cons :
      (s : Site F) (sites : List (Site F)) (views : List (SiteView F))
      → finish_all world pool expected (s ∷ sites) ≡ ok views
      → (n : ℤ) × (rest : List (SiteView F)) × (finish_all world pool expected sites ≡ ok rest)
        × (finish world expected s n ∷ rest ≡ views)
  unfolding finish_all
  finish_all-cons s sites views h =
      let (n, e, h1) = >>=-eq-ok (incidents pool s.site_id) _ h in
      let (rest, e1, h2) = >>=-eq-ok (finish_all world pool expected sites) _ h1 in
      (n, rest, e1, cc)

  finish_all-nil :
      (views : List (SiteView F)) → finish_all world pool expected [] ≡ ok views → [] ≡ views
  unfolding finish_all
  finish_all-nil views h = cc

  total_live-finish_all :
      (sites : List (Site F)) (views : List (SiteView F))
      → finish_all world pool expected sites ≡ ok views
      → total_live views ≡ total (λ b. world.is_fresh b.last_seen) sites
  total_live-finish_all [] views h =
      subst (λ (vs : List (SiteView F)). total_live vs ≡ 0) (finish_all-nil views h) refl
  total_live-finish_all (s ∷ sites) views h =
      let (n, rest, e, whole) = finish_all-cons s sites views h in
      subst
        (λ (vs : List (SiteView F)).
          total_live vs ≡ total (λ b. world.is_fresh b.last_seen) (s ∷ sites))
        whole (omega (arith, length-fresh world s.live_agents, total_live-finish_all sites rest e))

  -- What the entries of a site say, before and after they are finished.
  record Finished (id : String) (sites : List (Site F)) (views : List (SiteView F)) : Type 0 where
    same : is_some (view_of id views) ≡ is_kept id sites
    lacking :
        (a : String) (v : SiteView F)
        → view_of id views ≡ some v
        → str_mem a v.missing_agents
          ≡ (str_mem a expected && not (str_mem a (names world (fresh world (agents_of id sites)))))

  Finished-finish_all :
      (id : String) (sites : List (Site F)) (views : List (SiteView F))
      → finish_all world pool expected sites ≡ ok views
      → Finished id sites views
  unfolding fresh
  Finished-finish_all id [] views h =
      subst (Finished id []) (finish_all-nil views h)
        (record { same = refl; lacking = λ a v e. cc })
  Finished-finish_all id (s ∷ sites) views h =
      let (n, rest, e, whole) = finish_all-cons s sites views h in
      let later = Finished-finish_all id sites rest e in
      subst (Finished id (s ∷ sites)) whole (elim (Bool-cases (str_eq s.site_id id)) [
        | inl here ↦ record {
          same = rw here refl;
          lacking = λ a v there.
              subst
                (λ (w : SiteView F). str_mem a w.missing_agents ≡ (
                  str_mem a expected
                  && not (str_mem a (names world (fresh world (agents_of id (s ∷ sites)))))))
                (some-injective _ _ (rw here at there))
                (rw here (str_mem-missing a expected (names world (fresh world s.live_agents))));
        }
        | inr other ↦ record {
          same = rw other later.same;
          lacking = λ a v there. rw other (later.lacking a v (rw other at there));
        }
      ])

  -- The agents of a site that are named and alive, among all heartbeats.
  alive_at :
      (id a : String) (beats : List (Beat F))
      → str_mem a (names world (fresh world (agents_of id (add_all world beats []))))
        ≡ any (is_alive world id a) beats
  alive_at id a beats =
      ap (λ (bs : List (Beat F)). str_mem a (names world (fresh world bs)))
        (agents_of-add_all world id beats [])
      ∙ str_mem-names world a (of_site id beats)
      ∙ any-of_site (λ b. str_eq a b.agent && world.is_fresh b.last_seen) id beats

  snapshot-Counts :
      (beats : List (Beat F)) (views : List (SiteView F))
      → finish_all world pool expected (add_all world beats []) ≡ ok views
      → Counts world expected beats (snapshot_of views)
  snapshot-Counts beats views h = record {
    live = omega (
      arith,
      total_live-finish_all (add_all world beats []) views h,
      total-add_all world (λ b. world.is_fresh b.last_seen) beats [],
    );
    listed = λ id.
        ap is_some (view_of-sort_sites id views)
        ∙ (Finished-finish_all id (add_all world beats []) views h).same
        ∙ is_kept-add_all world id beats [];
    absent = λ id a v there.
        (Finished-finish_all id (add_all world beats []) views h).lacking a v
          (sym (view_of-sort_sites id views) ∙ there)
        ∙ ap (λ (x : Bool). str_mem a expected && not x) (alive_at id a beats);
  }

  -- Let a client be there. When `build_snapshot` returns, it has read the heartbeats of all scanned
  -- keys; the snapshot counts as live just those that are not stale; it lists a site exactly when a
  -- heartbeat, stale or not, names it; and an expected agent is missing at a listed site exactly
  -- when no heartbeat of that agent and that site is fresh.
  pub build_snapshot-Counts :
      (s : Snapshot F)
      → build_snapshot world pool expected true ≡ ok s
      → (beats : List (Beat F)) × (heartbeats world (keys world) ≡ ok beats)
        × Counts world expected beats s
  unfolding build_snapshot
  build_snapshot-Counts s h =
      let (sites, collected, h1) = >>=-eq-ok (collect world (keys world) []) _ h in
      let (views, finished, whole) = >>=-eq-ok (finish_all world pool expected sites) _ h1 in
      let (beats, read, added) =
        >>=-eq-ok (heartbeats world (keys world)) _
          (sym (collect-heartbeats world (keys world) []) ∙ collected) in
      let same : add_all world beats [] ≡ sites = cc (added) in
      let built : snapshot_of views ≡ s = cc (whole) in
      (
        beats,
        read,
        subst (Counts world expected beats) built (
            snapshot-Counts beats views (
              subst (λ (ss : List (Site F)). finish_all world pool expected ss ≡ ok views)
                (sym same) finished)),
      )

  beat_of-no_mapping :
      (v : Value) → to_dict v ≡ err attribute_error → beat_of world v ≡ err attribute_error
  unfolding beat_of
  beat_of-no_mapping v bad = rw bad refl

  heartbeat-no_mapping :
      (key raw : String) (v : Value)
      → world.read key ≡ ok (some raw)
      → world.loads raw ≡ some v
      → to_dict v ≡ err attribute_error
      → heartbeat world key ≡ err attribute_error
  unfolding heartbeat
  heartbeat-no_mapping key raw v held loaded bad =
      rw (held, loaded)
        (ap (λ (r : Result (Beat F)). elim r [ err e ↦ err e | ok b ↦ ok (some b) ])
          (beat_of-no_mapping v bad))

  -- A heartbeat that cannot be taken in ends the scan, wherever its key stands.
  heartbeats-raising :
      (key : String) (e : Exc) (ks : List String)
      → Memᴰ key ks
      → heartbeat world key ≡ err e
      → (beats : List (Beat F)) → heartbeats world ks ≢ ok beats
  unfolding heartbeats
  heartbeats-raising key e [] m raises beats h = elim m [ ]
  heartbeats-raising key e (k ∷ ks) (Memᴰ.head same) raises beats h =
      let (b, got, h1) = >>=-eq-ok (heartbeat world k) _ h in cc (same, got, raises)
  heartbeats-raising key e (k ∷ ks) (Memᴰ.tail m) raises beats h =
      let (b, got, h1) = >>=-eq-ok (heartbeat world k) _ h in
      let (rest, read, h2) = >>=-eq-ok (heartbeats world ks) _ h1 in
      heartbeats-raising key e ks m raises rest read

  -- Let a client be there, and let one of the scanned keys hold a text that `json.loads` reads as a
  -- value that is no mapping. Then no snapshot is stored, in this round or a later one: the loop
  -- ends with an exception in this round.
  pub run_fleet_view-no_mapping :
      (key raw : String) (v : Value) (stores : Bool) (rounds : List (Round F D))
      → Memᴰ key (keys world)
      → world.read key ≡ ok (some raw)
      → world.loads raw ≡ some v
      → to_dict v ≡ err attribute_error
      → (e : Exc) × (run_fleet_view expected true
            (record { world = world; pool = pool; stores = stores } ∷ rounds)
          ≡ ([], some e))
  unfolding run_fleet_view
  run_fleet_view-no_mapping key raw v stores rounds m held loaded bad =
      of_built (build_snapshot world pool expected true) refl
    where
      of_built :
          (r : Result (Snapshot F))
          → build_snapshot world pool expected true ≡ r
          → (e : Exc) × (run_fleet_view expected true
                (record { world = world; pool = pool; stores = stores } ∷ rounds)
              ≡ ([], some e))
      of_built (err e) built = (e, rw (run_fleet_view, built) refl)
      of_built (ok s) built =
          let (beats, read, counted) = build_snapshot-Counts s built in
          elim (heartbeats-raising key attribute_error (keys world) m
            (heartbeat-no_mapping key raw v held loaded bad) beats read) [ ]
