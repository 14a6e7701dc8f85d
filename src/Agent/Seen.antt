-- ===== src/Agent/Seen.antt =====
-- What apps/control_plane/fleet_view.py makes of a heartbeat that apps/agents/shared/base.py wrote.
use dcops.Base.{
  str_mem, str_eq, is_some, Option-cases, inl, inr, String, Bool, ◌≡◌, refl, ap, subst, ◌∙◌, true,
  false, Option, none, some, List, [], ◌∷◌, any, str_eq_refl, arith,
}
use mathlib.Core.List.{Memᴰ}
use dcops.Base.Result.{Result, ok, err, >>=-eq-ok}
use dcops.Value.{str, int, lookup, to_dict, fields}
use dcops.Store.Timescale.{Pool}
use dcops.Fleet.Heartbeats.{Beat, Surroundings, keys, heartbeat, beat_of}
use dcops.Fleet.View.{SiteView, Snapshot, build_snapshot}
use dcops.Fleet.Sorting.{view_of}
use dcops.Fleet.Sites.{heartbeats, with_beat}
use dcops.Fleet.Counts.{is_alive, build_snapshot-Counts}
use dcops.Agent.Life.{Agent, Life, heartbeat_key, payload, beats, step, beat}

module _ {F : Type 0} (world : Surroundings F) where
  any-with_beat :
      (q : Beat F → Bool) (o : Option (Beat F)) (rest : List (Beat F))
      → any q rest ≡ true
      → any q (with_beat world o rest) ≡ true
  any-with_beat q none rest h = h
  any-with_beat q (some b) rest h = ground (arith, h)

  -- A heartbeat that is read for one of the keys is among those that are read.
  heartbeats-any :
      (q : Beat F → Bool) (key : String) (b : Beat F) (ks : List String)
      → Memᴰ key ks
      → heartbeat world key ≡ ok (some b)
      → q b ≡ true
      → (bs : List (Beat F)) → heartbeats world ks ≡ ok bs
      → any q bs ≡ true
  unfolding heartbeats
  heartbeats-any q key b [] m got pass bs h = elim m [ ]
  heartbeats-any q key b (k ∷ ks) (Memᴰ.head same) got pass bs h =
      let (o, first, h1) = >>=-eq-ok (heartbeat world k) _ h in
      let (rest, read, whole) = >>=-eq-ok (heartbeats world ks) _ h1 in
      let found : o ≡ some b = cc (same, first, got) in
      let all : with_beat world o rest ≡ bs = cc (whole) in
      subst (λ (l : List (Beat F)). any q l ≡ true) all (rw (found, pass) refl)
  heartbeats-any q key b (k ∷ ks) (Memᴰ.tail m) got pass bs h =
      let (o, first, h1) = >>=-eq-ok (heartbeat world k) _ h in
      let (rest, read, whole) = >>=-eq-ok (heartbeats world ks) _ h1 in
      let later = heartbeats-any q key b ks m got pass rest read in
      let all : with_beat world o rest ≡ bs = cc (whole) in
      subst (λ (l : List (Beat F)). any q l ≡ true) all (any-with_beat q o rest later)

module _ {E S F : Type 0} (agent : Agent E S F) where
  -- The surroundings of the view hold, under the agent's key, what the agent wrote last, and the
  -- functions of JSON and of texts and floats invert those of the agent.
  pub record Shares (world : Surroundings F) (l : Life S) (now : F) : Type 0 where
    pub read :
        let key = heartbeat_key agent.site_id agent.name in
        world.read key ≡ ok (lookup key l.written)
    pub scanned : Memᴰ (heartbeat_key agent.site_id agent.name) (keys world)
    pub loads : world.loads (agent.dumps (payload agent now)) ≡ some (payload agent now)
    pub text_of : (s : String) → world.text_of (str s) ≡ s
    pub float : world.float (agent.number now) ≡ ok now

  abbrev own_beat : F → Beat F
  own_beat now = record {
    site_id = agent.site_id;
    agent = agent.name;
    last_seen = now;
    pid = int agent.pid;
  }

  module _ (world : Surroundings F) (l : Life S) (now : F) (live : l.beating ≡ true)
      (told : l.stop ≡ false) (client : agent.has_client ≡ true) where
    abbrev after : Life S
    after = step agent (beats now true) l

    written_last :
        lookup (heartbeat_key agent.site_id agent.name) after.written
        ≡ some (agent.dumps (payload agent now))
    unfolding step beat
    written_last =
        rw (live, told, client, str_eq_refl (heartbeat_key agent.site_id agent.name)) refl

    beat_of-payload : Shares world after now → beat_of world (payload agent now) ≡ ok (own_beat now)
    unfolding beat_of to_dict fields
    beat_of-payload w = simp (w.text_of agent.name, w.text_of agent.site_id, w.float) refl

    heartbeat-payload :
        Shares world after now
        → heartbeat world (heartbeat_key agent.site_id agent.name) ≡ ok (some (own_beat now))
    unfolding heartbeat
    heartbeat-payload w =
        rw (w.read, written_last, w.loads)
          (ap (λ (r : Result (Beat F)). elim r [ err e ↦ err e | ok b ↦ ok (some b) ])
            (beat_of-payload w))

    -- Let the heartbeat task of an agent run, with a client and no signal so far, and write a
    -- heartbeat that Redis takes. If the fleet view reads it back before it is stale, its snapshot
    -- lists the agent's site, and does not list the agent as missing there.
    pub build_snapshot-beats :
        {D : Type 0} (pool : Option (Pool D)) (expected : List String) (s : Snapshot F)
        → Shares world after now
        → world.is_fresh now ≡ true
        → build_snapshot world pool expected true ≡ ok s
        → (v : SiteView F) × (view_of agent.site_id s.sites ≡ some v)
          × (str_mem agent.name v.missing_agents ≡ false)
    build_snapshot-beats pool expected s w young built =
        let (bs, read, counts) = build_snapshot-Counts world pool expected s built in
        let among : (q : Beat F → Bool) → q (own_beat now) ≡ true → any q bs ≡ true = λ q pass.
          heartbeats-any world q _ (own_beat now) (keys world) w.scanned (heartbeat-payload w) pass
            bs read in
        let seen =
          among (is_alive world agent.site_id agent.name)
            (rw (str_eq_refl agent.site_id, str_eq_refl agent.name) young) in
        let named = among (λ b. str_eq b.site_id agent.site_id) (str_eq_refl agent.site_id) in
        elim (Option-cases (view_of agent.site_id s.sites)) [
          | inl nothing ↦ cc (ap is_some nothing, counts.listed agent.site_id, named)
          | inr (v, there) ↦
              (v, there, counts.absent agent.site_id agent.name v there ∙ rw seen (ground arith))
        ]
