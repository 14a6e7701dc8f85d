-- ===== src/Sentinel/Tests.antt =====
-- Runs of the sentinel's windows.
use dcops.Base.{ℕ, ◌≡◌, refl, String, Option, none, some, List, [], ◌∷◌}
use dcops.Base.Int.{pos}
use dcops.Value.{Value, Dict}
use dcops.Sentinel.Window.{
  add, evict_stale, window_of, device_of, ingest_for, ingest, ingest_all, recent,
}

abbrev event : String → ℕ → Dict
event d n = ("device_id", Value.str d) ∷ ("timestamp", Value.int (pos n)) ∷ []

abbrev events : List Dict
events = event "a" 10 ∷ event "b" 20 ∷ event "a" 30 ∷ event "a" 40 ∷ []

-- A clock that counts.
abbrev parse : Option Value → Option ℕ
parse (some (Value.int (pos n))) = some n
parse _ = none

last_two : window_of "a" (ingest_all 2 events []) ≡ event "a" 30 ∷ event "a" 40 ∷ []
unfolding window_of ingest_all ingest ingest_for device_of add
last_two = refl

stale_evicted : (recent parse 10 50 "a" (ingest_all 2 events [])).0 ≡ event "a" 40 ∷ []
unfolding recent evict_stale window_of ingest_all ingest ingest_for device_of add
stale_evicted = refl
