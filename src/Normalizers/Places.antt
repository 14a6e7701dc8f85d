-- ===== src/Normalizers/Places.antt =====
-- `_hall_rack`, which redfish.py, ipmi.py, snmp.py and dcgm.py of apps/ingestion/normalizers all
-- have, and the last segment of a path of redfish.py.
use Prim.Native.Char.{code}
use Prim.Native.String.{[], ◌∷◌}
use mathlib.Core.List.{List}
use text.Mathlib.Text.{starts_with}
use dcops.Base.{String, ◌&&◌, Option, none, some, str_append, ◌==◌, if◌then◌else◌}
use dcops.Optimizer.Names.{split, rack_name}

abbrev pub unknown : String × String
unknown = ("unknown", "unknown")

-- The test and the names of `_hall_rack`, by the parts.
abbrev pub hall_rack_of_parts : List String → String × String
hall_rack_of_parts (List.◌∷◌ site (List.◌∷◌ hall (List.◌∷◌ rack (List.◌∷◌ p ps)))) =
    if starts_with hall "h" && starts_with rack "r"
    then (str_append site (str_append "-" hall), rack_name site hall rack)
    else unknown
hall_rack_of_parts _ = unknown

-- `_hall_rack`
unfoldable pub hall_rack : String → String × String
unfolding split
hall_rack device_id = hall_rack_of_parts (split device_id)

-- `s.rstrip("/")`
unfoldable pub rstrip_slash : String → String
rstrip_slash [] = []
rstrip_slash (c ∷ s) = elim (rstrip_slash s) [
  | [] ↦ if code c == b'/' then [] else c ∷ []
  | d ∷ t ↦ c ∷ d ∷ t
]

-- What stands after the last slash, if there is one.
unfoldable pub after_slash : String → Option String
after_slash [] = none
after_slash (c ∷ s) = elim (after_slash s) [
  | some t ↦ some t
  | none ↦ if code c == b'/' then some s else none
]

-- `s.rstrip("/").rsplit("/", 1)[-1]`
unfoldable pub last_segment : String → String
unfolding rstrip_slash after_slash
last_segment s = elim (after_slash (rstrip_slash s)) [ none ↦ rstrip_slash s | some t ↦ t ]
