-- ===== src/Optimizer/Context.antt =====
-- The context of a placement problem: `_gather_context` of apps/agents/optimizer/main.py.
use dcops.Base.{
  ℕ, String, str_append, Bool, not, ◌||◌, Option, none, some, List, [], ◌∷◌, ◌++◌, any, str_eq,
  if◌then◌else◌,
}
use dcops.Base.Result.{Result, ok, ◌>>=◌}
use dcops.Value.{Value, Dict, lookup, get_or, truthy}
use dcops.Optimizer.Solver.{Arith, Workload, Rack, SolverInput, none_of}
use dcops.Optimizer.Names.{tier_from_device, before_last_r}

-- Floats: `decimal n k` is n / 10 ^ k; `number` is `float(v)` where `isinstance(v, (int, float))`,
-- and `float_of` is `float(v)` of any value.
pub record Floats (F : Type 0) : Type 0 where
  pub ops : Arith F
  pub decimal : ℕ → ℕ → F
  pub times : F → F → F
  pub over : F → F → F
  pub minus : F → F → F
  pub larger : F → F → F
  pub number : Value → Option F
  pub float_of : Value → Result F
  pub to_value : F → Value

-- The surroundings: environment variables, TimescaleDB (`none` for an exception), the bus and
-- Redis (false for an exception), and `uuid4` for the recommendation and for its event.
pub record Surroundings (F : Type 0) : Type 0 where
  pub ts_enabled : Bool
  pub power_rows : String → String → Option (List Dict)
  pub load_rows : String → Option (List Dict)
  pub rack_power_cap_w : F
  pub rack_thermal_cap_kw : F
  pub publish_ok : Bool
  pub has_client : Bool
  pub lpush_ok : Bool
  pub ltrim_ok : Bool
  pub recent_keep : ℕ
  pub recommendation_id : ℕ
  pub event_id : ℕ
  pub objective_value : F

module _ {F : Type 0} (floats : Floats F) where
  open floats use {decimal, times, over, minus, larger, number, float_of, to_value}

  -- `p * 0.9 / 1000.0`
  abbrev heat_of_power : F → F
  heat_of_power p = over (times p (decimal 9 1)) (decimal 1000 0)

  abbrev workload_of : String → String → F → Workload F
  workload_of rack_id device_id power = record {
    id = str_append "wl-" device_id;
    current_rack_id = rack_id;
    power_w = power;
    thermal_load_kw = heat_of_power power;
    tier = tier_from_device device_id;
  }

  -- One row of the query: a workload, or none.
  unfoldable pub workload_of_row : String → Option Value → Option Value → List (Workload F)
  workload_of_row rack_id (some (Value.str device_id)) (some power) = elim (number power) [
    | none ↦ []
    | some p ↦ workload_of rack_id device_id p ∷ []
  ]
  workload_of_row rack_id device_id power = []

  unfoldable pub workloads_of_rows : String → List Dict → List (Workload F)
  unfolding workload_of_row
  workloads_of_rows rack_id [] = []
  workloads_of_rows rack_id (r ∷ rows) =
      workload_of_row rack_id (lookup "device_id" r) (lookup "power_w" r)
      ++ workloads_of_rows rack_id rows

  -- `float(r.get(key) or default)`
  abbrev float_or : String → F → Dict → Result F
  float_or key default r =
      let v = get_or key Value.null r in if truthy v then float_of v else ok default

  abbrev headroom : F → F → F
  headroom cap used = larger floats.ops.nought (minus cap used)

  -- One row of the query: a rack, or none.
  unfoldable pub rack_of_row : F → F → Option Value → F → F → List (Rack F)
  rack_of_row power_cap heat_cap (some (Value.str rid)) used inlet =
      record {
        id = rid;
        pdu_capacity_w = headroom power_cap used;
        thermal_headroom_kw = headroom heat_cap (heat_of_power used);
        current_inlet_c = inlet;
      }
      ∷ []
  rack_of_row power_cap heat_cap rid used inlet = []

  unfoldable pub racks_of_rows : F → F → List Dict → Result (List (Rack F))
  unfolding rack_of_row
  racks_of_rows power_cap heat_cap [] = ok []
  racks_of_rows power_cap heat_cap (r ∷ rows) = do
    used ← float_or "used_w" (decimal 0 0) r
    inlet ← float_or "inlet_c" (decimal 22 0) r
    racks ← racks_of_rows power_cap heat_cap rows
    ok (rack_of_row power_cap heat_cap (lookup "rack_id" r) used inlet ++ racks)

  -- The incident rack is always among the racks.
  unfoldable pub with_incident_rack : F → F → String → List (Rack F) → List (Rack F)
  with_incident_rack power_cap heat_cap incident racks =
      if any (λ r. str_eq r.id incident) racks
      then racks
      else racks
        ++ record {
          id = incident;
          pdu_capacity_w = larger floats.ops.nought (times power_cap (decimal 1 1));
          thermal_headroom_kw = larger floats.ops.nought (times heat_cap (decimal 1 1));
          current_inlet_c = decimal 30 0;
        }
          ∷ []

  -- `600.0 + i * 50`, for the three placeholders.
  abbrev synthetic_workload : String → String → ℕ → Workload F
  synthetic_workload rack_id suffix watts = record {
    id = str_append "wl-" (str_append rack_id suffix);
    current_rack_id = rack_id;
    power_w = decimal watts 0;
    thermal_load_kw = heat_of_power (decimal watts 0);
    tier = "compute";
  }

  unfoldable pub synthetic_workloads : String → List (Workload F)
  synthetic_workloads rack_id =
      synthetic_workload rack_id "-srv01" 650
      ∷ synthetic_workload rack_id "-srv02" 700
      ∷ synthetic_workload rack_id "-srv03" 750
      ∷ []

  abbrev synthetic_rack : String → String → ℕ → Rack F
  synthetic_rack hall_prefix suffix tenths = record {
    id = str_append hall_prefix suffix;
    pdu_capacity_w = decimal 10000 0;
    thermal_headroom_kw = decimal 10 0;
    current_inlet_c = decimal tenths 1;
  }

  unfoldable pub synthetic_racks : String → List (Rack F)
  synthetic_racks incident = elim (before_last_r incident) [
    | none ↦ []
    | some hall ↦
        synthetic_rack hall "-r01" 225
        ∷ synthetic_rack hall "-r02" 230
        ∷ synthetic_rack hall "-r03" 235
        ∷ synthetic_rack hall "-r04" 240
        ∷ synthetic_rack hall "-r05" 245
        ∷ []
  ]

module _ {F : Type 0} (floats : Floats F) (around : Surroundings F) where
  -- `_workloads_on_rack`
  unfoldable pub workloads_on_rack : String → String → List (Workload F)
  unfolding workloads_of_rows
  workloads_on_rack site_id rack_id =
      if not around.ts_enabled then [] else elim (around.power_rows site_id rack_id) [
        | none ↦ []
        | some rows ↦ workloads_of_rows floats rack_id rows
      ]

  -- `_candidate_racks`
  unfoldable pub candidate_racks : String → String → Result (List (Rack F))
  unfolding racks_of_rows with_incident_rack
  candidate_racks site_id incident =
      if not around.ts_enabled then ok [] else elim (around.load_rows site_id) [
        | none ↦ ok []
        | some rows ↦ do
          racks ← racks_of_rows floats around.rack_power_cap_w around.rack_thermal_cap_kw rows
          ok (
              with_incident_rack floats around.rack_power_cap_w around.rack_thermal_cap_kw incident
                racks)
      ]

  abbrev or_else_list : {A : Type 0} → List A → List A → List A
  or_else_list xs ys = if none_of xs then ys else xs

  -- `_gather_context`
  unfoldable pub gather_context : String → String → Result (Option (SolverInput F))
  unfolding workloads_on_rack candidate_racks synthetic_workloads synthetic_racks
  gather_context site_id incident =
      let workloads =
        or_else_list (workloads_on_rack site_id incident) (synthetic_workloads floats incident) in
      do
        found ← candidate_racks site_id incident
        let racks = or_else_list found (synthetic_racks floats incident)
        ok (
            if none_of workloads || none_of racks
            then none
            else some
                (record { incident_rack_id = incident; workloads = workloads; racks = racks }))
