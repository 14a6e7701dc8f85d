-- ===== src/Fleet/Heartbeats.antt =====
-- What apps/control_plane/fleet_view.py reads of the heartbeats, and the agents that it expects.
use Prim.Native.Char.{code}
use Prim.Native.String.{[], ◌∷◌}
use mathlib.Core.List.{List}
use dcops.Base.{String, Bool, Option, none, some, str_eq, ◌==◌, if◌then◌else◌}
use dcops.Base.Result.{Result, ok, err, ◌>>=◌}
use dcops.Value.{Value, str, null, lookup, get_or, to_dict}
use dcops.Quality.Words.{strip}
use dcops.Optimizer.Names.{push}

-- The entry of an agent in `live_agents`, with the site under which it is kept.
pub record Beat (F : Type 0) : Type 0 where
  pub site_id : String
  pub agent : String
  pub last_seen : F
  pub pid : Value

-- What the view reads from its surroundings: the keys of the scan of Redis and what each holds
-- (exceptions included), `json.loads` of a text, `str(v)` and `float(v)`, and `now - t < stale`.
pub record Surroundings (F : Type 0) : Type 0 where
  pub scan : Result (List String)
  pub read : String → Result (Option String)
  pub loads : String → Option Value
  pub text_of : Value → String
  pub float : Value → Result F
  pub zero : F
  pub less : F → F → Bool
  pub is_fresh : F → Bool

-- `s.split(",")`
unfoldable pub split_commas : String → List String
split_commas [] = List.◌∷◌ [] List.[]
split_commas (c ∷ s) =
    if code c == b',' then List.◌∷◌ [] (split_commas s) else push c (split_commas s)

-- `(a.strip() for a in parts if a.strip())`
unfoldable pub stripped : List String → List String
unfolding strip
stripped List.[] = List.[]
stripped (List.◌∷◌ p ps) =
    if str_eq (strip p) "" then stripped ps else List.◌∷◌ (strip p) (stripped ps)

abbrev expected_agents_per_site : List String
expected_agents_per_site = List.◌∷◌ "sentinel" (
    List.◌∷◌ "forensic" (
      List.◌∷◌ "operator" (
        List.◌∷◌ "optimizer"
          (List.◌∷◌ "planner" (List.◌∷◌ "executor" (List.◌∷◌ "rollback" List.[]))))))

-- `_expected_agents`, of the environment variable.
unfoldable pub expected_agents : Option String → List String
unfolding split_commas stripped
expected_agents none = expected_agents_per_site
expected_agents (some raw) =
    if str_eq raw "" then expected_agents_per_site else stripped (split_commas raw)

module _ {F : Type 0} (world : Surroundings F) where
  -- A heartbeat that was loaded. A value that is no mapping has no `get`, and `float` may raise.
  unfoldable pub beat_of : Value → Result (Beat F)
  unfolding to_dict
  beat_of v = do
    hb ← to_dict v
    last_seen ← elim (lookup "last_seen_ts" hb) [ none ↦ ok world.zero | some t ↦ world.float t ]
    ok (record {
      site_id = world.text_of (get_or "site_id" (str "unknown") hb);
      agent = world.text_of (get_or "agent" (str "unknown") hb);
      last_seen = last_seen;
      pid = get_or "pid" null hb;
    })

  -- What the body of the loop gets for a key: nothing where it goes on to the next.
  abbrev loaded : Option Value → Result (Option (Beat F))
  loaded none = ok none
  loaded (some v) = elim (beat_of v) [ err e ↦ err e | ok b ↦ ok (some b) ]

  abbrev of_raw : Result (Option String) → Result (Option (Beat F))
  of_raw (err e) = ok none
  of_raw (ok none) = ok none
  of_raw (ok (some raw)) = loaded (world.loads raw)

  unfoldable pub heartbeat : String → Result (Option (Beat F))
  unfolding beat_of
  heartbeat key = of_raw (world.read key)

  -- The keys, or none after an exception.
  abbrev pub keys : List String
  keys = elim world.scan [ err e ↦ List.[] | ok ks ↦ ks ]
