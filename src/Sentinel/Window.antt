-- ===== src/Sentinel/Window.antt =====
-- `DeviceWindow` and `WindowStore` of apps/agents/sentinel/window.py. Times are counts of
-- microseconds; `t >= now - age` is written `now <= t + age`.
use dcops.Base.{
  ℕ, ◌+◌, ◌-◌, String, Option, none, some, List, [], ◌∷◌, ◌++◌, length, drop, leb, if◌then◌else◌,
}
use dcops.Value.{Value, Dict, lookup, insert}

-- `deque(maxlen=...).append`: what is too much goes off the left end. This is `DeviceWindow.add`.
unfoldable pub add : ℕ → Dict → List Dict → List Dict
add maxlen event buf =
    let longer : List Dict = buf ++ event ∷ [] in drop (length longer - maxlen) longer

-- `_evict_stale`; `parse` is `_parse_ts` on what `first.get("timestamp")` gives, down to the
-- timestamp of the moment.
unfoldable pub evict_stale : (Option Value → Option ℕ) → ℕ → ℕ → List Dict → List Dict
evict_stale parse age now [] = []
evict_stale parse age now (first ∷ buf) =
    let rest = evict_stale parse age now buf in
    elim (parse (lookup "timestamp" first)) [
      | none ↦ rest
      | some t ↦ if leb now (t + age) then first ∷ buf else rest
    ]

-- `_windows`
abbrev pub Windows : Type 0
Windows = List (String × List Dict)

-- `WindowStore.get`, with an empty window for a device without one.
unfoldable pub window_of : String → Windows → List Dict
window_of device_id windows = elim (lookup device_id windows) [ none ↦ [] | some buf ↦ buf ]

-- `event.get("device_id")` where it is a text.
unfoldable pub device_of : Dict → Option String
device_of event = elim (lookup "device_id" event) [ some (Value.str d) ↦ some d | _ ↦ none ]

-- `WindowStore.ingest`, by the device.
unfoldable pub ingest_for : ℕ → Dict → Option String → Windows → Option String × Windows
unfolding add
ingest_for maxlen event none windows = (none, windows)
ingest_for maxlen event (some d) windows =
    (some d, insert d (add maxlen event (window_of d windows)) windows)

-- `WindowStore.ingest`
unfoldable pub ingest : ℕ → Dict → Windows → Option String × Windows
unfolding ingest_for
ingest maxlen event windows = ingest_for maxlen event (device_of event) windows

-- `DeviceWindow.recent` by way of the store: what it returns, and the store afterwards.
unfoldable pub recent : (Option Value → Option ℕ) → ℕ → ℕ → String → Windows → List Dict × Windows
recent parse age now d windows = elim (lookup d windows) [
  | none ↦ ([], windows)
  | some buf ↦ (evict_stale parse age now buf, insert d (evict_stale parse age now buf) windows)
]

-- The events of the bus, one after the other.
unfoldable pub ingest_all : ℕ → List Dict → Windows → Windows
unfolding ingest
ingest_all maxlen [] windows = windows
ingest_all maxlen (e ∷ es) windows = ingest_all maxlen es (ingest maxlen e windows).1
