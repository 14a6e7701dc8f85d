-- ===== src/Correlator/Hits.antt =====
-- `CrossSiteCorrelator` of apps/control_plane/cross_site_correlator.py. Times are counts of
-- microseconds since 1970; `ts < now - w` is written `ts + w < now`. The two dicts are read with a
-- default for a missing key, so they are functions.
use Prim.Native.Nat.{Ordering}
use Prim.Native.String.{compare}
use dcops.Base.{
  ℕ, ◌+◌, ◌*◌, ◌^◌, String, Bool, true, false, not, ◌&&◌, ◌||◌, Option, none, some, List, [], ◌∷◌,
  ◌++◌, str_eq, length, take, ltb, leb, ◌==◌, if◌then◌else◌,
}
use dcops.Base.Int.{pos, negsuc}
use dcops.Value.{Value, Dict, get_or, lookup}

-- The module's settings, read from the environment. The floor is the dyadic number m / 2 ^ k.
pub record Config : Type 0 where
  pub propagation_threshold : ℕ
  pub floor_m : ℕ
  pub floor_k : ℕ
  pub window : ℕ
  pub shadow : ℕ
  pub cooldown : ℕ
  pub federation_sites : List String

-- (ts_seconds, confidence, device_id)
pub record Hit : Type 0 where
  pub ts : ℕ
  pub confidence : Value
  pub device_id : String

pub record Correlator : Type 0 where
  pub hits : String → String → List Hit
  pub last_propagated : String → String → String → ℕ

abbrev pub fresh_correlator : Correlator
fresh_correlator = record { hits = λ s k. []; last_propagated = λ s k t. 0 }

-- `isinstance(v, str)`
abbrev pub as_text : Option Value → Option String
as_text (some (Value.str s)) = some s
as_text _ = none

-- `isinstance(v, (int, float)) and not float(v) < floor`, for integers in the range of floats.
-- NaN is below nothing, and a Boolean is an integer.
unfoldable pub reaches_floor : Config → Option Value → Bool
reaches_floor c (some (Value.bool b)) = leb c.floor_m ((if b then 1 else 0) * 2 ^ c.floor_k)
reaches_floor c (some (Value.int (pos n))) = leb c.floor_m (n * 2 ^ c.floor_k)
reaches_floor c (some (Value.int (negsuc n))) = false
reaches_floor c (some (Value.real false m k)) = leb (c.floor_m * 2 ^ k) (m * 2 ^ c.floor_k)
reaches_floor c (some (Value.real true m k)) = m == 0 && c.floor_m == 0
reaches_floor c (some (Value.infinite negative)) = not negative
reaches_floor c (some Value.not_a_number) = true
reaches_floor c _ = false

-- `_purge_old`: from the left, up to the first hit that is recent enough.
unfoldable pub purge_old : ℕ → ℕ → List Hit → List Hit
purge_old window now [] = []
purge_old window now (x ∷ bucket) =
    let rest = purge_old window now bucket in if ltb (x.ts + window) now then rest else x ∷ bucket

-- One more element of a sorted list without repetitions.
insert_sorted : String → List String → List String
insert_sorted d [] = d ∷ []
insert_sorted d (e ∷ es) = elim (compare d e) [
  | Ordering.lt ↦ d ∷ e ∷ es
  | Ordering.eq ↦ e ∷ es
  | Ordering.gt ↦ e ∷ insert_sorted d es
]

-- `sorted({d for _, _, d in bucket if d})`
devices : List Hit → List String
unfolding insert_sorted
devices [] = []
devices (x ∷ bucket) =
    if str_eq x.device_id "" then devices bucket else insert_sorted x.device_id (devices bucket)

abbrev pub update : {A : Type 0} → (String → A) → String → A → String → A
update f k v j = if str_eq k j then v else f j

abbrev pub update₂ :
    {A : Type 0} → (String → String → A) → String → String → A → String → String → A
update₂ f s k v s' k' = if str_eq s s' && str_eq k k' then v else f s' k'

-- The loop over the targets: the map of the last times, here of one site and kind, and how many
-- targets are ready.
unfoldable pub ready_targets : Config → ℕ → String → List String → (String → ℕ) → (String → ℕ) × ℕ
ready_targets c now site [] last = (last, 0)
ready_targets c now site (target ∷ targets) last =
    let skips = str_eq target site || ltb now (last target + c.cooldown) in
    let last' : String → ℕ = if skips then last else update last target now in
    let (last'', ready) = ready_targets c now site targets last' in
    (last'', if skips then ready else ready + 1)

-- (origin_site, failure_kind, sample_devices)
abbrev pub Ready : Type 0
Ready = String × String × List String

-- `record_prediction` once the event has a site, a kind and a confidence above the floor.
unfoldable pub record_hit :
    Config → ℕ → String → String → Value → String → Correlator → Correlator × Option Ready
unfolding devices
record_hit c now site kind confidence device s =
    let added =
      s.hits site kind ++ record { ts = now; confidence = confidence; device_id = device } ∷ [] in
    let bucket = purge_old c.window now added in
    let s' : Correlator = record s { hits = update₂ s.hits site kind bucket } in
    let (last, ready) = ready_targets c now site c.federation_sites (s.last_propagated site kind) in
    if ltb (length bucket) c.propagation_threshold then (s', none) else (
      record s' { last_propagated = update₂ s.last_propagated site kind last },
      if ready == 0 then none else some (site, kind, take 5 (devices bucket)),
    )

-- `event.get("device_id", "")`, or "" where that is no text.
abbrev pub device_of : Dict → String
device_of event = elim (lookup "device_id" event) [ some (Value.str d) ↦ d | _ ↦ "" ]

-- `record_prediction`, by the texts found under `site_id` and `failure_kind`.
unfoldable pub record_fields :
    Config → ℕ → Dict → Option String → Option String → Correlator → Correlator × Option Ready
record_fields c now event (some site) (some kind) s =
    if reaches_floor c (lookup "probability" event)
    then record_hit c now site kind (get_or "probability" Value.null event) (device_of event) s
    else (s, none)
record_fields c now event _ _ s = (s, none)

-- `record_prediction`
unfoldable pub record_prediction : Config → ℕ → Dict → Correlator → Correlator × Option Ready
unfolding record_fields
record_prediction c now event s =
    record_fields c now event (as_text (lookup "site_id" event))
      (as_text (lookup "failure_kind" event)) s

-- `hit_count`
abbrev pub hit_count : Correlator → String → String → ℕ
hit_count s site kind = length (s.hits site kind)
