-- ===== src/Optimizer/Placement.antt =====
-- What a plan of `solve` in apps/agents/optimizer/solver.py keeps to, when the CP-SAT solver keeps
-- to its contract.
use dcops.Base.{
  ◌≤◌, ◌≡◌, refl, inl, inr, String, Bool-cases, true, false, not, ◌&&◌, ◌||◌, List, [], ◌∷◌, All,
  All-append, all, any, length, str_eq, str_eq_refl, str_mem, arith,
}
use dcops.Optimizer.Solver.{
  Arith, Workload, Rack, SolverInput, PlannedMove, Status, empty, optimal, feasible, infeasible,
  model_invalid, unknown, no_eligible_targets, Assignment, CpSolver, eligible, constraints,
  objective, moves_of, all_moves, extract, none_of, solve_for, solve,
}
use dcops.Optimizer.Limits.{
  holds, solved, Sound, ids, Distinct, Within, Within-none, Within-racks, all-parts,
  length-all_moves,
}

module _ {F : Type 0} where
  -- To one of the racks, and to another one than where the workload is.
  abbrev pub Elsewhere : List (Rack F) → PlannedMove F → Type 0
  Elsewhere racks m =
      (any (λ r. str_eq r.id m.to_rack_id) racks ≡ true)
      × (str_eq m.to_rack_id m.from_rack_id ≡ false)

  Elsewhere-later :
      (r : Rack F) (racks : List (Rack F)) (ms : List (PlannedMove F))
      → All (Elsewhere racks) ms
      → All (Elsewhere (r ∷ racks)) ms
  Elsewhere-later r racks [] h = tt
  Elsewhere-later r racks (m ∷ ms) ((found, away), h) =
      ((ground (arith, found), away), Elsewhere-later r racks ms h)

  moves_of-Elsewhere :
      (x : Assignment) (w : Workload F) (rs : List (Rack F)) → All (Elsewhere rs) (moves_of x w rs)
  unfolding moves_of
  moves_of-Elsewhere x w [] = tt
  moves_of-Elsewhere x w (r ∷ rs) =
      let rest = Elsewhere-later r rs (moves_of x w rs) (moves_of-Elsewhere x w rs) in
      elim (Bool-cases (x w.id r.id && not (str_eq r.id w.current_rack_id))) [
        | inl on ↦ rw on ((ground (arith, str_eq_refl r.id), ground (arith, on)), rest)
        | inr off ↦ rw off rest
      ]

  all_moves-Elsewhere :
      (x : Assignment) (ws : List (Workload F)) (rs : List (Rack F))
      → All (Elsewhere rs) (all_moves x ws rs)
  unfolding all_moves
  all_moves-Elsewhere x [] rs = tt
  all_moves-Elsewhere x (w ∷ ws) rs =
      All-append (Elsewhere rs) (moves_of x w rs) (all_moves x ws rs) (moves_of-Elsewhere x w rs)
        (all_moves-Elsewhere x ws rs)

  eligible_absent :
      (ops : Arith F) (i : String) (rs : List (Rack F))
      → str_mem i (ids rs) ≡ false
      → str_mem i (ids (eligible ops rs)) ≡ false
  unfolding eligible
  eligible_absent ops i [] h = refl
  eligible_absent ops i (r ∷ rs) h = ground (arith, h, eligible_absent ops i rs)

  eligible-Distinct :
      (ops : Arith F) (rs : List (Rack F)) → Distinct rs → Distinct (eligible ops rs)
  unfolding eligible
  eligible-Distinct ops [] d = tt
  eligible-Distinct ops (r ∷ rs) (d, ds) =
      elim (Bool-cases (ops.positive r.pdu_capacity_w && ops.positive r.thermal_headroom_kw)) [
        | inl on ↦ rw on (eligible_absent ops r.id rs d, eligible-Distinct ops rs ds)
        | inr off ↦ rw off (eligible-Distinct ops rs ds)
      ]

module _ {F : Type 0} (ops : Arith F) (cp : CpSolver) (contract : Sound cp) where
  module _ (P : List (PlannedMove F) → Type 0) (nothing : P []) where
    extract-moves :
        (ws : List (Workload F)) (rs : List (Rack F)) (answer : Status × Assignment)
        → (solved answer.0 ≡ true → P (all_moves answer.1 ws rs))
        → P (extract ws rs answer).moves
    unfolding extract
    extract-moves ws rs (optimal, x) h = h refl
    extract-moves ws rs (feasible, x) h = h refl
    extract-moves ws rs (infeasible, x) h = nothing
    extract-moves ws rs (model_invalid, x) h = nothing
    extract-moves ws rs (unknown, x) h = nothing
    extract-moves ws rs (empty, x) h = nothing
    extract-moves ws rs (no_eligible_targets, x) h = nothing

    -- The moves are none, or those of an assignment that satisfies the constraints.
    solve-moves :
        (inp : SolverInput F)
        → ((x : Assignment)
            → all (holds x) (constraints ops inp.workloads (eligible ops inp.racks)) ≡ true
            → P (all_moves x inp.workloads (eligible ops inp.racks)))
        → P (solve ops cp inp).moves
    unfolding solve solve_for
    solve-moves inp h =
        let rs = eligible ops inp.racks in
        let cs = constraints ops inp.workloads rs in
        let cost = objective ops inp.incident_rack_id inp.workloads rs in
        let answered : P (extract inp.workloads rs (cp cs cost)).moves =
          extract-moves inp.workloads rs (cp cs cost)
            (λ s. h (cp cs cost).1 (contract cs cost s)) in
        elim (Bool-cases (none_of inp.workloads || none_of inp.racks)) [
          | inl idle ↦ simp idle nothing
          | inr busy ↦ elim (Bool-cases (none_of rs)) [
            | inl full ↦ simp (busy, full) nothing
            | inr room ↦ simp (busy, room) answered
          ]
        ]

  -- Let the racks of the input have distinct names, and let CP-SAT keep to its contract. For every
  -- eligible rack, the power of the moves into it is at most its power capacity, and their heat is
  -- at most its thermal headroom (in thousandths, each cut off to a whole number).
  pub solve-Within :
      (inp : SolverInput F)
      → Distinct inp.racks
      → All (Within ops (solve ops cp inp).moves) (eligible ops inp.racks)
  solve-Within inp d =
      let rs = eligible ops inp.racks in
      solve-moves (λ ms. All (Within ops ms) rs) (Within-none ops rs) inp
        (λ x h.
          let parts = all-parts ops x inp.workloads rs h in
          Within-racks ops x inp.workloads rs rs (eligible-Distinct ops inp.racks d) parts.1
            parts.2)

  -- Let CP-SAT keep to its contract. A plan moves at most as many workloads as there are, each to
  -- one of the eligible racks, which is not the rack that it is on.
  pub solve-Elsewhere :
      (inp : SolverInput F)
      → (length (solve ops cp inp).moves ≤ length inp.workloads)
        × All (Elsewhere (eligible ops inp.racks)) (solve ops cp inp).moves
  solve-Elsewhere inp =
      let rs = eligible ops inp.racks in
      solve-moves (λ ms. (length ms ≤ length inp.workloads) × All (Elsewhere rs) ms)
        (omega arith, tt) inp
        (λ x h. (
          length-all_moves ops x inp.workloads rs (all-parts ops x inp.workloads rs h).0,
          all_moves-Elsewhere x inp.workloads rs,
        ))
