-- ===== src/Optimizer/Solver.antt =====
-- `solve` and `estimate_impact` of apps/agents/optimizer/solver.py. The CP-SAT solver is an
-- argument: from the constraints and the cost terms it gives a status and the value of each
-- variable. Power and heat are not negative; a variable is named by its workload and its rack, so
-- the names of the workloads, and those of the racks, are taken to be distinct.
use dcops.Base.{
  ℕ, ◌+◌, ◌-◌, ◌/◌, String, Bool, true, false, not, ◌&&◌, ◌||◌, List, [], ◌∷◌, ◌++◌, length, leb,
  str_eq, str_mem, ◌==◌, if◌then◌else◌,
}

-- F is the type of floats; `milli x` is `int(x * 1000)`, and `cost heat inlet` is
-- `int(round(heat * (inlet ** 2)))`.
pub record Arith (F : Type 0) : Type 0 where
  pub positive : F → Bool
  pub milli : F → ℕ
  pub cost : F → F → ℕ
  pub nought : F
  pub add : F → F → F
  pub of_count : ℕ → F

pub record Workload (F : Type 0) : Type 0 where
  pub id : String
  pub current_rack_id : String
  pub power_w : F
  pub thermal_load_kw : F
  pub tier : String

-- Without `target_inlet_c`, which the code never reads.
pub record Rack (F : Type 0) : Type 0 where
  pub id : String
  pub pdu_capacity_w : F
  pub thermal_headroom_kw : F
  pub current_inlet_c : F

pub record SolverInput (F : Type 0) : Type 0 where
  pub incident_rack_id : String
  pub workloads : List (Workload F)
  pub racks : List (Rack F)

pub record PlannedMove (F : Type 0) : Type 0 where
  pub workload_id : String
  pub from_rack_id : String
  pub to_rack_id : String
  pub expected_power_w : F
  pub expected_thermal_kw : F

-- `solve_status`: what the code sets itself, and what CP-SAT reports.
pub data Status : Type 0 where
  empty no_eligible_targets : Status
  optimal feasible infeasible model_invalid unknown : Status

pub record SolverOutput (F : Type 0) : Type 0 where
  pub is_feasible : Bool
  pub moves : List (PlannedMove F)
  pub solve_status : Status

-- x[(workload, rack)]
abbrev pub Var : Type 0
Var = String × String

pub data Constraint : Type 0 where
  exactly_one : List Var → Constraint
  at_most : List (ℕ × Var) → ℕ → Constraint

abbrev pub Assignment : Type 0
Assignment = String → String → Bool

abbrev pub CpSolver : Type 0
CpSolver = List Constraint → List (ℕ × Var) → Status × Assignment

-- The tiers that say what a workload is, and not which redundancy group it belongs to.
abbrev pub non_affinity_tiers : List String
non_affinity_tiers = "default" ∷ "compute" ∷ "gpu" ∷ "switch" ∷ []

unfoldable pub max_one : ℕ → ℕ
max_one n = if n == 0 then 1 else n

abbrev pub none_of : {A : Type 0} → List A → Bool
none_of [] = true
none_of (x ∷ xs) = false

-- `(n + len(racks) - 1) // len(racks)`, at least 1; there are racks.
abbrev pub per_rack_cap : ℕ → ℕ → ℕ
per_rack_cap n racks = max_one ((n + racks - 1) / racks)

module _ {F : Type 0} where
  abbrev pub vars_of : Workload F → List (Rack F) → List Var
  vars_of w [] = []
  vars_of w (r ∷ rs) = (w.id, r.id) ∷ vars_of w rs

  -- `AddExactlyOne`, for each workload.
  abbrev pub placements : List (Workload F) → List (Rack F) → List Constraint
  placements [] rs = []
  placements (w ∷ ws) rs = exactly_one (vars_of w rs) ∷ placements ws rs

  abbrev pub terms : (Workload F → ℕ) → List (Workload F) → Rack F → List (ℕ × Var)
  terms size [] r = []
  terms size (w ∷ ws) r = (size w, (w.id, r.id)) ∷ terms size ws r

  abbrev pub one_of : Workload F → ℕ
  one_of w = 1

  unfoldable pub members : String → List (Workload F) → List (Workload F)
  members tier [] = []
  members tier (w ∷ ws) = if str_eq w.tier tier then w ∷ members tier ws else members tier ws

  -- The keys of `by_tier`, the latest first: CP-SAT gets a set of constraints.
  unfoldable pub tiers : List (Workload F) → List String
  tiers [] = []
  tiers (w ∷ ws) =
      if str_mem w.tier non_affinity_tiers || str_mem w.tier (tiers ws)
      then tiers ws
      else w.tier ∷ tiers ws

  abbrev pub group_limits : List (Workload F) → ℕ → List (Rack F) → List Constraint
  group_limits ms cap [] = []
  group_limits ms cap (r ∷ rs) = at_most (terms one_of ms r) cap ∷ group_limits ms cap rs

  unfoldable pub spread : List (Workload F) → List (Rack F) → List String → List Constraint
  unfolding members max_one
  spread ws rs [] = []
  spread ws rs (tier ∷ ts) =
      let ms = members tier ws in
      (if leb (length ms) 1 then [] else group_limits ms (per_rack_cap (length ms) (length rs)) rs)
      ++ spread ws rs ts

module _ {F : Type 0} (arith_ops : Arith F) where
  open arith_ops use {positive, milli, cost}

  unfoldable pub eligible : List (Rack F) → List (Rack F)
  eligible [] = []
  eligible (r ∷ rs) =
      if positive r.pdu_capacity_w && positive r.thermal_headroom_kw
      then r ∷ eligible rs
      else eligible rs

  abbrev pub power_of : Workload F → ℕ
  power_of w = milli w.power_w

  abbrev pub heat_of : Workload F → ℕ
  heat_of w = milli w.thermal_load_kw

  -- The power and the thermal capacities.
  abbrev pub power_limits : List (Workload F) → List (Rack F) → List Constraint
  power_limits ws [] = []
  power_limits ws (r ∷ rs) =
      at_most (terms power_of ws r) (milli r.pdu_capacity_w) ∷ power_limits ws rs

  abbrev pub heat_limits : List (Workload F) → List (Rack F) → List Constraint
  heat_limits ws [] = []
  heat_limits ws (r ∷ rs) =
      at_most (terms heat_of ws r) (milli r.thermal_headroom_kw) ∷ heat_limits ws rs

  unfoldable pub constraints : List (Workload F) → List (Rack F) → List Constraint
  unfolding spread tiers
  constraints ws rs =
      placements ws rs ++ (power_limits ws rs ++ (heat_limits ws rs ++ spread ws rs (tiers ws)))

  abbrev cost_row : String → Workload F → List (Rack F) → List (ℕ × Var)
  cost_row incident w [] = []
  cost_row incident w (r ∷ rs) =
      (
        cost w.thermal_load_kw r.current_inlet_c + (if str_eq r.id incident then 1000000 else 0),
        (w.id, r.id),
      )
      ∷ cost_row incident w rs

  -- The objective, a sum to be minimised.
  unfoldable pub objective : String → List (Workload F) → List (Rack F) → List (ℕ × Var)
  objective incident [] rs = []
  objective incident (w ∷ ws) rs = cost_row incident w rs ++ objective incident ws rs

module _ {F : Type 0} where
  abbrev pub to_move : Workload F → Rack F → PlannedMove F
  to_move w r = record {
    workload_id = w.id;
    from_rack_id = w.current_rack_id;
    to_rack_id = r.id;
    expected_power_w = w.power_w;
    expected_thermal_kw = w.thermal_load_kw;
  }

  -- The moves of one workload, and of all.
  unfoldable pub moves_of : Assignment → Workload F → List (Rack F) → List (PlannedMove F)
  moves_of x w [] = []
  moves_of x w (r ∷ rs) =
      if x w.id r.id && not (str_eq r.id w.current_rack_id)
      then to_move w r ∷ moves_of x w rs
      else moves_of x w rs

  unfoldable pub all_moves : Assignment → List (Workload F) → List (Rack F) → List (PlannedMove F)
  unfolding moves_of
  all_moves x [] rs = []
  all_moves x (w ∷ ws) rs = moves_of x w rs ++ all_moves x ws rs

  -- What `solve` makes of the solver's answer.
  unfoldable pub extract : List (Workload F) → List (Rack F) → Status × Assignment → SolverOutput F
  unfolding all_moves
  extract ws rs (optimal, x) = record {
    is_feasible = true;
    moves = all_moves x ws rs;
    solve_status = optimal;
  }
  extract ws rs (feasible, x) = record {
    is_feasible = true;
    moves = all_moves x ws rs;
    solve_status = feasible;
  }
  extract ws rs (status, x) = record { is_feasible = false; moves = []; solve_status = status }

module _ {F : Type 0} (arith_ops : Arith F) (cp : CpSolver) where
  -- The part of `solve` after the check for eligible racks.
  unfoldable pub solve_for : String → List (Workload F) → List (Rack F) → SolverOutput F
  unfolding constraints objective extract
  solve_for incident ws rs =
      extract ws rs (cp (constraints arith_ops ws rs) (objective arith_ops incident ws rs))

  -- `solve`, with OR-Tools installed.
  unfoldable pub solve : SolverInput F → SolverOutput F
  unfolding eligible solve_for
  solve inp =
      if none_of inp.workloads || none_of inp.racks
      then record { is_feasible = true; moves = []; solve_status = empty }
      else if none_of (eligible arith_ops inp.racks)
      then record { is_feasible = false; moves = []; solve_status = no_eligible_targets }
      else solve_for inp.incident_rack_id inp.workloads (eligible arith_ops inp.racks)

module _ {F : Type 0} (arith_ops : Arith F) where
  abbrev total : (PlannedMove F → F) → List (PlannedMove F) → F
  total size [] = arith_ops.nought
  total size (m ∷ ms) = arith_ops.add (size m) (total size ms)

  -- `estimate_impact`; the order of a sum is left open.
  unfoldable pub estimate_impact : List (PlannedMove F) → List (String × F)
  estimate_impact ms =
      ("power_redistributed_w", total (λ m. m.expected_power_w) ms)
      ∷ ("thermal_redistributed_kw", total (λ m. m.expected_thermal_kw) ms)
      ∷ ("n_workload_migrations", arith_ops.of_count (length ms))
      ∷ []
