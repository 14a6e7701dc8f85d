-- ===== src/Physics/Tests.antt =====
-- Injections into a small hall, and the theorems at these inputs.
use dcops.Base.{ℕ, ◌+◌, ◌-◌, ◌*◌, ◌/◌, ◌^◌, ◌≡◌, refl, String, false, [], ◌∷◌, ltb, if◌then◌else◌}
use dcops.Base.Result.{err, type_error}
use dcops.Value.{Value, to_int}
use dcops.Physics.Entities.{
  healthy, none_mode, psu_fail, Server, Part, server, crac, CracUnit, Device, DataHall,
}
use dcops.Physics.Hall.{find_in, find_in_racks, find_device}
use dcops.Physics.Injector.{Floats, of_server, ramp, handle_disk_realloc_ramp, inject}
use dcops.Physics.Handling.{is_healthy}
use dcops.Physics.Outcome.{inject-refusal}
use dcops.Physics.Power.{server_draw, draw_of, draw, load_of, compute_power_draw}
use dcops.Physics.PowerLoss.{rack_powers, inject-psu_fail}

abbrev floats : Floats ℕ
floats = record {
  decimal = λ n k. n * 100 / 10 ^ k;
  add = λ a b. a + b;
  minus = λ a b. a - b;
  times = λ a b. a * b / 100;
  over = λ a b. a * 100 / b;
  larger = λ a b. if ltb a b then b else a;
  smaller = λ a b. if ltb b a then b else a;
}

abbrev node : Server ℕ
node = record {
  cpu_util_percent = 5000;
  cpu_temp_c = 5500;
  mem_used_bytes = 0;
  mem_total_bytes = 256;
  fan_rpm = 5000;
  psu_efficiency_percent = 10000;
}

abbrev cooler : CracUnit ℕ
cooler = record {
  hall_id_serves = "h1";
  supply_temp_c = 1800;
  return_temp_c = 2700;
  fan_percent = 6000;
  capacity_kw = 5000;
}

abbrev device : String → Part ℕ → Device ℕ
device name p = record {
  id = name;
  model = "m";
  vendor = "v";
  rack_id = "r1";
  state = healthy;
  failure_mode = none_mode;
  inlet_temp_c = 2200;
  outlet_temp_c = 3000;
  power_draw_w = 0;
  rated_power_w = 50000;
  metadata = [];
  part = p;
}

abbrev hall : DataHall ℕ
hall = record {
  id = "h1";
  site_id = "pune";
  capacity_kw = 10000;
  racks =
      record {
        id = "r1";
        hall_id = "h1";
        position = (0, 0);
        capacity_u = 42;
        devices = device "a" (server node) ∷ device "b" (server node) ∷ [];
      }
      ∷ [];
  crac_units = device "c" (crac cooler) ∷ [];
  ambient_inlet_c = 2200;
}

-- Half of the load: 0.4 and 0.3 of the rated power.
half_load : rack_powers (compute_power_draw floats (ltb 0) hall).racks ≡ (35000 ∷ 35000 ∷ []) ∷ []
unfolding compute_power_draw draw draw_of server_draw load_of
half_load = refl

-- A sector count that is no number: the exception comes after the state was changed.
abbrev worn : Device ℕ
worn = record (device "d" (server node)) {
  metadata = ("disk_reallocated_sectors", Value.str "many") ∷ [];
}

half_done : is_healthy (handle_disk_realloc_ramp floats worn).1.state ≡ false
unfolding handle_disk_realloc_ramp of_server ramp to_int
half_done = refl

inject-refusal_example : inject floats hall "c" psu_fail ≡ (err type_error, hall)
unfolding find_device find_in_racks find_in
inject-refusal_example = inject-refusal floats hall "c" psu_fail type_error refl

inject-psu_fail_example :
    rack_powers (compute_power_draw floats (ltb 0) (inject floats hall "b" psu_fail).1).racks
    ≡ rack_powers (compute_power_draw floats (ltb 0) hall).racks
unfolding find_in_racks find_in
inject-psu_fail_example =
    inject-psu_fail floats (ltb 0) hall "b" (device "b" (server node)) node refl refl
