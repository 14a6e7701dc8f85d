-- ===== src/Optimizer/Names.antt =====
-- What apps/agents/optimizer/main.py reads off the names of devices and racks.
use Prim.Native.Char.{Char, code}
use Prim.Native.String.{[], ◌∷◌}
use mathlib.Core.List.{List}
use text.Mathlib.Text.{starts_with}
use dcops.Base.{
  String, Bool, false, ◌||◌, ◌&&◌, Option, none, some, str_append, str_eq, ◌==◌, if◌then◌else◌,
}

abbrev pub push : Char → List String → List String
push c List.[] = List.◌∷◌ (c ∷ []) List.[]
push c (List.◌∷◌ p ps) = List.◌∷◌ (c ∷ p) ps

-- `s.split("-")`
unfoldable pub split : String → List String
split [] = List.◌∷◌ [] List.[]
split (c ∷ s) = if code c == b'-' then List.◌∷◌ [] (split s) else push c (split s)

-- f"{site}-{hall}-{rack}"
abbrev pub rack_name : String → String → String → String
rack_name site hall rack = str_append site (str_append "-" (str_append hall (str_append "-" rack)))

-- The test and the name of `_rack_for`, by the parts.
abbrev pub rack_of_parts : List String → Option String
rack_of_parts (List.◌∷◌ site (List.◌∷◌ hall (List.◌∷◌ rack ps))) =
    if starts_with hall "h" && starts_with rack "r" then some (rack_name site hall rack) else none
rack_of_parts _ = none

-- `OptimizerAgent._rack_for`
unfoldable pub rack_for : String → Option String
unfolding split
rack_for device_id = rack_of_parts (split device_id)

-- `part in s`, for a part that is not empty.
unfoldable pub contains : String → String → Bool
contains part [] = false
contains part (c ∷ s) = starts_with (c ∷ s) part || contains part s

-- `s.endswith(part)`
unfoldable pub ends_with : String → String → Bool
ends_with part [] = str_eq [] part
ends_with part (c ∷ s) = str_eq (c ∷ s) part || ends_with part s

unfoldable pub tier_from_device : String → String
unfolding contains ends_with
tier_from_device device_id =
    if contains "-gpu" device_id
    then "gpu"
    else if ends_with "-tor" device_id
    then "switch"
    else "compute"

-- What stands before the last "-r": `s.rsplit("-r", 1)`, where it has two parts.
unfoldable pub before_last_r : String → Option String
before_last_r [] = none
before_last_r (c ∷ s) = elim (before_last_r s) [
  | some p ↦ some (c ∷ p)
  | none ↦ if starts_with (c ∷ s) "-r" then some [] else none
]

-- `s.removeprefix("wl-")`
unfoldable pub without_wl : String → String
without_wl (c ∷ d ∷ e ∷ s) =
    if code c == b'w' && code d == b'l' && code e == b'-' then s else c ∷ d ∷ e ∷ s
without_wl s = s
