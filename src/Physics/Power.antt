-- ===== src/Physics/Power.antt =====
-- `compute_power_draw` of apps/physics/power.py. Devices have names of their own, so that each PDU
-- has a list of draws of its own.
use dcops.Base.{String, Bool, List, [], ◌∷◌, str_mem, if◌then◌else◌}
use dcops.Physics.Entities.{Server, Gpu, Part, server, gpu, pdu, crac, Device, Rack, DataHall}
use dcops.Physics.Injector.{Floats}

module _ {F : Type 0} (floats : Floats F) (nonzero : F → Bool) where
  open floats use {decimal, add, times, over, larger, smaller}

  -- `_server_draw`, `_gpu_draw` and the draw of a CRAC unit.
  unfoldable pub server_draw : F → Server F → F
  server_draw rated s =
      over
        (add (times (decimal 4 1) rated)
          (times (times (decimal 6 1) rated) (over s.cpu_util_percent (decimal 100 0))))
        (larger (decimal 5 1) (over s.psu_efficiency_percent (decimal 100 0)))

  unfoldable pub gpu_draw : F → Gpu F → F
  gpu_draw rated g =
      add (times (decimal 15 2) rated)
        (times (times (decimal 85 2) rated) (over g.gpu_util_percent (decimal 100 0)))

  unfoldable pub draw_of : Device F → Part F → F
  unfolding server_draw gpu_draw
  draw_of d (server s) = server_draw d.rated_power_w s
  draw_of d (gpu g) = gpu_draw d.rated_power_w g
  draw_of d (crac c) =
      let fan = over c.fan_percent (decimal 100 0) in times d.rated_power_w (times fan fan)
  draw_of d p = d.power_draw_w

  -- The first step, for a device and for a rack.
  unfoldable pub draw : Device F → Device F
  unfolding draw_of
  draw d = record d { power_draw_w = draw_of d d.part }

  abbrev pub draw_all : List (Device F) → List (Device F)
  draw_all [] = []
  draw_all (d ∷ ds) = draw d ∷ draw_all ds

  abbrev pub draw_racks : List (Rack F) → List (Rack F)
  draw_racks [] = []
  draw_racks (r ∷ racks) = record r { devices = draw_all r.devices } ∷ draw_racks racks

  -- The sum of the draws of the devices that a PDU powers.
  unfoldable pub total_in : F → List String → List (Device F) → F
  total_in sum ids [] = sum
  total_in sum ids (d ∷ ds) =
      total_in (if str_mem d.id ids then add sum d.power_draw_w else sum) ids ds

  unfoldable pub total_draw : F → List String → List (Rack F) → F
  unfolding total_in
  total_draw sum ids [] = sum
  total_draw sum ids (r ∷ racks) = total_draw (total_in sum ids r.devices) ids racks

  unfoldable pub load_of : List (Rack F) → Part F → Part F
  unfolding total_draw
  load_of racks (pdu p) =
      let total = total_draw (decimal 0 0) p.powered_device_ids racks in
      pdu (record p {
        load_percent = smaller (decimal 100 0) (
            if nonzero p.capacity_w
            then times (over total p.capacity_w) (decimal 100 0)
            else decimal 0 0);
      })
  load_of racks part = part

  -- The second step.
  abbrev pub load_all : List (Rack F) → List (Device F) → List (Device F)
  load_all racks [] = []
  load_all racks (d ∷ ds) = record d { part = load_of racks d.part } ∷ load_all racks ds

  abbrev pub load_racks : List (Rack F) → List (Rack F) → List (Rack F)
  load_racks all_racks [] = []
  load_racks all_racks (r ∷ racks) =
      record r { devices = load_all all_racks r.devices } ∷ load_racks all_racks racks

  unfoldable pub compute_power_draw : DataHall F → DataHall F
  unfolding draw load_of
  compute_power_draw hall = record hall {
    racks = load_racks (draw_racks hall.racks) (draw_racks hall.racks);
  }
