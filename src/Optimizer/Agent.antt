-- ===== src/Optimizer/Agent.antt =====
-- `OptimizerAgent` of apps/agents/optimizer/main.py: the
-- recommendation made of a plan, and what is published and kept.
use Prim.Native.Nat.{Ordering}
use Prim.Native.String.{compare}
use dcops.Base.{
  ℕ, zero, suc, String, not, ◌||◌, Option, none, some, List, [], ◌∷◌, take, length, ltb, str_eq,
  if◌then◌else◌,
}
use dcops.Base.Result.{Result, ok, err}
use dcops.Value.{Value, Items, nil, cons, end, field, Dict}
use dcops.Events.{Recommendation}
use dcops.Optimizer.Solver.{
  SolverInput, PlannedMove, SolverOutput, Status, empty, no_eligible_targets, optimal, feasible,
  infeasible, model_invalid, unknown, CpSolver, none_of, solve, estimate_impact,
}
use dcops.Optimizer.Names.{rack_for, without_wl}
use dcops.Optimizer.Context.{Floats, Surroundings, gather_context}

-- Of `IncidentReport`, what the code reads.
pub record IncidentReport : Type 0 where
  pub event_id : ℕ
  pub site_id : String
  pub trace_id : Option ℕ
  pub affected_device_ids : List String

-- What is published, the latest first, and the list in Redis.
pub record State : Type 0 where
  pub published : List Recommendation
  pub recent : List Recommendation

-- The texts of the status.
abbrev pub status_name : Status → String
status_name empty = "EMPTY"
status_name no_eligible_targets = "NO_ELIGIBLE_TARGETS"
status_name optimal = "OPTIMAL"
status_name feasible = "FEASIBLE"
status_name infeasible = "INFEASIBLE"
status_name model_invalid = "MODEL_INVALID"
status_name unknown = "UNKNOWN"

-- A device added to a sorted set.
unfoldable pub add_sorted : String → List String → List String
add_sorted d [] = d ∷ []
add_sorted d (e ∷ es) = elim (compare d e) [
  | Ordering.lt ↦ d ∷ e ∷ es
  | Ordering.eq ↦ e ∷ es
  | Ordering.gt ↦ e ∷ add_sorted d es
]

-- `LTRIM key 0 keep-1`: Redis keeps all for the stop -1.
unfoldable pub trim : ℕ → List Recommendation → List Recommendation
trim zero rs = rs
trim (suc n) rs = take (suc n) rs

module _ {F : Type 0} where
  unfoldable pub target_devices : List (PlannedMove F) → List String
  unfolding add_sorted without_wl
  target_devices [] = []
  target_devices (m ∷ ms) = add_sorted (without_wl m.workload_id) (target_devices ms)

module _ {F : Type 0} (around : Surroundings F) where
  abbrev pub pushed : Recommendation → List Recommendation → List Recommendation
  pushed rec recent =
      if not around.has_client || not around.lpush_ok
      then recent
      else if around.ltrim_ok
      then trim around.recent_keep (rec ∷ recent)
      else rec ∷ recent

  -- `_publish_and_persist`
  unfoldable pub publish_and_persist : Recommendation → State → State
  unfolding trim
  publish_and_persist rec s = record {
    published = if around.publish_ok then rec ∷ s.published else s.published;
    recent = pushed rec s.recent;
  }

module _ {F : Type 0} (floats : Floats F) where
  open floats use {to_value}

  unfoldable pub move_values : List (PlannedMove F) → Items
  move_values [] = nil
  move_values (m ∷ ms) =
      cons
        (Value.mapping (
          field "workload_id" (Value.str m.workload_id) (
            field "from_rack_id" (Value.str m.from_rack_id) (
              field "to_rack_id" (Value.str m.to_rack_id) (
                field "power_w" (to_value m.expected_power_w)
                  (field "thermal_kw" (to_value m.expected_thermal_kw) end))))))
        (move_values ms)

  abbrev impact_values : List (String × F) → Dict
  impact_values [] = []
  impact_values ((k, x) ∷ d) = (k, to_value x) ∷ impact_values d

module _ {F : Type 0} (floats : Floats F) (around : Surroundings F) where
  open floats use {decimal, to_value}

  -- `_build_recommendation`
  unfoldable pub build_recommendation : IncidentReport → SolverOutput F → Recommendation
  unfolding target_devices move_values estimate_impact
  build_recommendation event output = record {
    bus_event = record {
      event_id = around.event_id;
      site_id = event.site_id;
      trace_id = event.trace_id;
      parent_event_id = some event.event_id;
      metadata = [];
    };
    recommendation_id = around.recommendation_id;
    kind = "workload_migration";
    target_device_ids = target_devices output.moves;
    parameters =
        ("moves", Value.seq (move_values floats output.moves))
        ∷ ("solver_status", Value.str (status_name output.solve_status))
        ∷ ("objective_value", to_value around.objective_value)
        ∷ [];
    estimated_impact = impact_values floats (estimate_impact floats.ops output.moves);
    confidence =
        to_value (
          if str_eq (status_name output.solve_status) "OPTIMAL" then decimal 85 2 else decimal 7 1);
    requires_human_approval = ltb 3 (length output.moves);
  }

  unfoldable pub recommend : IncidentReport → SolverOutput F → State → State
  unfolding build_recommendation publish_and_persist
  recommend event output s =
      if not output.is_feasible || none_of output.moves
      then s
      else publish_and_persist around (build_recommendation event output) s

module _ {F : Type 0} (floats : Floats F) (around : Surroundings F) (cp : CpSolver) where
  -- `handle`: from the context, from the rack, and from the affected devices.
  unfoldable pub handle_context :
      IncidentReport → State → Result (Option (SolverInput F)) → Result State
  unfolding recommend
  handle_context event s (err e) = err e
  handle_context event s (ok none) = ok s
  handle_context event s (ok (some inp)) =
      ok (recommend floats around event (solve floats.ops cp inp) s)

  unfoldable pub handle_rack : IncidentReport → Option String → State → Result State
  unfolding handle_context gather_context
  handle_rack event none s = ok s
  handle_rack event (some rack_id) s =
      handle_context event s (gather_context floats around event.site_id rack_id)

  unfoldable pub handle_devices : IncidentReport → List String → State → Result State
  unfolding handle_rack
  handle_devices event [] s = ok s
  handle_devices event (d ∷ ds) s = handle_rack event (rack_for d) s

  unfoldable pub handle : IncidentReport → State → Result State
  unfolding handle_devices
  handle event s = handle_devices event event.affected_device_ids s

abbrev pub fresh_state : State
fresh_state = record { published = []; recent = [] }

-- `BaseAgent.serve`: an exception of `handle` is logged. It is raised before anything is published.
unfoldable pub kept : State → Result State → State
kept s (ok s') = s'
kept s (err e) = s

unfoldable pub serve :
    {F : Type 0} → Floats F → CpSolver → List (Surroundings F × IncidentReport) → State → State
unfolding kept handle
serve floats cp [] s = s
serve floats cp ((around, event) ∷ events) s =
    serve floats cp events (kept s (handle floats around cp event s))
