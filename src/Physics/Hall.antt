-- ===== src/Physics/Hall.antt =====
-- The devices of a hall: `_find_device` of apps/physics/failure_injector.py, and the change of the
-- device object that it returns. A device object stands at one place of the hall.
use dcops.Base.{String, is_some, Option, none, some, List, [], ◌∷◌, str_eq, or_else, if◌then◌else◌}
use dcops.Physics.Entities.{Device, Rack, DataHall}

module _ {F : Type 0} where
  -- `_find_device`
  unfoldable pub find_in : String → List (Device F) → Option (Device F)
  find_in device_id [] = none
  find_in device_id (d ∷ ds) = if str_eq d.id device_id then some d else find_in device_id ds

  unfoldable pub find_in_racks : String → List (Rack F) → Option (Device F)
  unfolding find_in
  find_in_racks device_id [] = none
  find_in_racks device_id (r ∷ racks) =
      or_else (find_in device_id r.devices) (find_in_racks device_id racks)

  unfoldable pub find_device : DataHall F → String → Option (Device F)
  unfolding find_in_racks
  find_device hall device_id =
      or_else (find_in_racks device_id hall.racks) (find_in device_id hall.crac_units)

  -- The device object is changed in place: the first of the name, which `_find_device` returned.
  unfoldable pub set_in : String → Device F → List (Device F) → List (Device F)
  set_in device_id new [] = []
  set_in device_id new (d ∷ ds) =
      if str_eq d.id device_id then new ∷ ds else d ∷ set_in device_id new ds

  unfoldable pub set_in_racks : String → Device F → List (Rack F) → List (Rack F)
  unfolding find_in set_in
  set_in_racks device_id new [] = []
  set_in_racks device_id new (r ∷ racks) =
      if is_some (find_in device_id r.devices)
      then record r { devices = set_in device_id new r.devices } ∷ racks
      else r ∷ set_in_racks device_id new racks

  unfoldable pub set_device : String → Device F → DataHall F → DataHall F
  unfolding find_in_racks set_in_racks set_in
  set_device device_id new hall =
      if is_some (find_in_racks device_id hall.racks)
      then record hall { racks = set_in_racks device_id new hall.racks }
      else record hall { crac_units = set_in device_id new hall.crac_units }
