-- ===== src/Optimizer/Tests.antt =====
-- Runs of the optimizer on whole watts, and the theorems at these inputs.
use dcops.Base.{
  List, ℕ, ◌+◌, ◌-◌, ◌*◌, ◌/◌, ◌^◌, ◌≤◌, ◌<◌, ◌≡◌, refl, String, Bool-cases, inl, inr, true, false,
  none, some, [], ◌∷◌, All, all, length, ltb, str_eq, if◌then◌else◌, arith,
}
use dcops.Base.Int.{pos}
use dcops.Base.Result.{ok}
use dcops.Value.{Value}
use dcops.Policy.Tests.{language, engine}
use dcops.Executor.Gate.{posts}
use dcops.Executor.Agent.{handle_recommendation}
use dcops.Executor.Tests.{surroundings}
use dcops.Optimizer.Solver.{
  Arith, Workload, Rack, SolverInput, SolverOutput, PlannedMove, optimal, infeasible, Assignment,
  CpSolver, eligible, solve, constraints, objective, members, tiers, spread, extract, solve_for,
  moves_of, all_moves, max_one,
}
use dcops.Optimizer.Limits.{holds, Sound, Within, into}
use dcops.Optimizer.Placement.{solve-Within}
use dcops.Optimizer.Names.{before_last_r, split, rack_for, tier_from_device, contains, ends_with}
use dcops.Optimizer.Context.{
  Floats, Surroundings, gather_context, workloads_on_rack, candidate_racks, synthetic_workloads,
  synthetic_racks,
}
use dcops.Optimizer.Agent.{
  IncidentReport, fresh_state, build_recommendation, recommend, serve, kept, handle, handle_devices,
  handle_rack, handle_context, publish_and_persist, trim,
}
use dcops.Optimizer.Handover.{Trims, Executable, build_recommendation-posts, serve-Executable}

abbrev ops : Arith ℕ
ops = record {
  positive = λ n. ltb 0 n;
  milli = λ n. n * 1000;
  cost = λ heat inlet. heat * inlet * inlet;
  nought = 0;
  add = λ a b. a + b;
  of_count = λ n. n;
}

-- A solver that tries one assignment.
abbrev tries : Assignment → CpSolver
tries x cs cost = if all (holds x) cs then (optimal, x) else (infeasible, x)

tries-Sound : (x : Assignment) → Sound (tries x)
tries-Sound x cs cost h = elim (Bool-cases (all (holds x) cs)) [
  | inl e ↦ rw e e
  | inr e ↦ absurd (ground (arith, rw e at h))
]

abbrev job : String → ℕ → Workload ℕ
job id watts = record {
  id = id;
  current_rack_id = "r1";
  power_w = watts;
  thermal_load_kw = 1;
  tier = "ha-1";
}

abbrev rack : String → ℕ → Rack ℕ
rack id watts = record {
  id = id;
  pdu_capacity_w = watts;
  thermal_headroom_kw = 4;
  current_inlet_c = 22;
}

abbrev problem : SolverInput ℕ
problem = record {
  incident_rack_id = "r1";
  workloads = job "wl-a" 600 ∷ job "wl-b" 500 ∷ [];
  racks = rack "r1" 900 ∷ rack "full" 0 ∷ rack "r2" 900 ∷ [];
}

-- The one workload stays on its rack, and the other goes to the second one.
abbrev apart : Assignment
apart w r = if str_eq w "wl-a" then str_eq r "r1" else str_eq r "r2"

-- Both go to the second rack.
abbrev together : Assignment
together w r = str_eq r "r2"

moved_apart :
    let out = solve ops (tries apart) problem in
    (length out.moves ≡ 1)
    × (into (λ m. m.expected_power_w) "r2" out.moves ≡ 500)
    × (out.is_feasible ≡ true)
unfolding solve eligible solve_for constraints spread members tiers max_one objective extract
    all_moves moves_of
moved_apart = (refl, refl, refl)

too_much : (solve ops (tries together) problem).is_feasible ≡ false
unfolding solve eligible solve_for constraints spread members tiers max_one objective extract
    all_moves moves_of
too_much = refl

solve-Within_example :
    All (Within ops (solve ops (tries apart) problem).moves) (eligible ops problem.racks)
solve-Within_example =
    solve-Within ops (tries apart) (tries-Sound apart) problem (refl, (refl, (refl, tt)))

device_tiers :
    (tier_from_device "pune-h1-r02-gpu1" ≡ "gpu")
    × (tier_from_device "pune-h1-r02-tor" ≡ "switch")
    × (tier_from_device "pune-h1-r02-srv1" ≡ "compute")
unfolding tier_from_device contains ends_with
device_tiers = (refl, refl, refl)

no_rack : rack_for "eu-west-h1-r02-srv1" ≡ none
unfolding rack_for split
no_rack = refl

abbrev floats : Floats ℕ
floats = record {
  ops = ops;
  decimal = λ n k. n / 10 ^ k;
  times = λ a b. a * b;
  over = λ a b. a / b;
  minus = λ a b. a - b;
  larger = λ a b. if ltb a b then b else a;
  number = λ v. elim v [ Value.int (pos n) ↦ some n | _ ↦ none ];
  float_of = λ v. elim v [ Value.int (pos n) ↦ ok n | _ ↦ ok 0 ];
  to_value = λ n. Value.int (pos n);
}

abbrev around : Surroundings ℕ
around = record {
  ts_enabled = false;
  power_rows = λ site rack. none;
  load_rows = λ site. none;
  rack_power_cap_w = 15000;
  rack_thermal_cap_kw = 12;
  publish_ok = true;
  has_client = true;
  lpush_ok = true;
  ltrim_ok = true;
  recent_keep = 2;
  recommendation_id = 7;
  event_id = 8;
  objective_value = 0;
}

abbrev incident : IncidentReport
incident = record {
  event_id = 1;
  site_id = "pune";
  trace_id = none;
  affected_device_ids = "pune-h1-r02-srv1" ∷ [];
}

abbrev many : SolverOutput ℕ
many =
    let m : PlannedMove ℕ = record {
      workload_id = "wl-a";
      from_rack_id = "r1";
      to_rack_id = "r2";
      expected_power_w = 1;
      expected_thermal_kw = 1;
    } in
    record { is_feasible = true; moves = m ∷ m ∷ m ∷ m ∷ []; solve_status = optimal }

build_recommendation-posts_example :
    ¬ 0
    < posts
        (handle_recommendation surroundings language engine
          (build_recommendation floats around incident many)
          []).1
unfolding posts
build_recommendation-posts_example =
    build_recommendation-posts floats around incident many surroundings language engine []
      (omega arith)

abbrev elsewhere : Assignment
elsewhere w r = str_eq r "pune-h1-r03"

abbrev three : ℕ → Surroundings ℕ × IncidentReport
three n = (record around { event_id = n }, incident)

abbrev trims : (n : ℕ) → Trims 2 (three n).0
trims n = record { ltrim_ok = refl; recent_keep = refl; positive = omega arith }

abbrev three_incidents : List (Surroundings ℕ × IncidentReport)
three_incidents = three 1 ∷ three 2 ∷ three 3 ∷ []

three_served :
    let s = serve floats (tries elsewhere) three_incidents fresh_state in
    (length s.published ≡ 3) × (length s.recent ≡ 2)
unfolding serve kept handle handle_devices handle_rack handle_context rack_for split gather_context
    workloads_on_rack candidate_racks synthetic_workloads synthetic_racks before_last_r recommend
    publish_and_persist trim solve eligible solve_for constraints spread members tiers max_one
    objective extract all_moves moves_of
three_served = (refl, refl)

serve-Executable_example :
    let s = serve floats (tries elsewhere) three_incidents fresh_state in
    All (Executable surroundings) s.published
    × All (Executable surroundings) s.recent
    × (length s.recent ≤ 2)
serve-Executable_example =
    serve-Executable surroundings floats (tries elsewhere) 2 three_incidents
      (trims 1, (trims 2, (trims 3, tt)))
