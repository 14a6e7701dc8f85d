-- ===== src/Optimizer/Offline.antt =====
-- The optimizer without TimescaleDB: apps/agents/optimizer/main.py.
use dcops.Base.{
  ◌≡◌, refl, inl, inr, String, true, false, Option-cases, some, is_some, List, [], ◌∷◌, length,
  str_append, arith,
}
use dcops.Base.Result.{ok}
use dcops.Optimizer.Solver.{CpSolver, SolverInput, none_of, solve}
use dcops.Optimizer.Names.{rack_name, before_last_r}
use dcops.Optimizer.Naming.{IsRackName, rack_for-rack_name, rack_name-before}
use dcops.Optimizer.Context.{
  Floats, Surroundings, workloads_on_rack, candidate_racks, synthetic_workloads, synthetic_racks,
  gather_context,
}
use dcops.Optimizer.Agent.{
  IncidentReport, State, recommend, handle_context, handle_rack, handle_devices, handle,
}

none_of-length : {A : Type 0} (xs : List A) → length xs ≡ 5 → none_of xs ≡ false
none_of-length [] h = absurd (omega (arith, h))
none_of-length (x ∷ xs) h = refl

module _ {F : Type 0} (floats : Floats F) where
  -- The placement problem made up for a rack.
  abbrev placeholder : String → SolverInput F
  placeholder rack_id = record {
    incident_rack_id = rack_id;
    workloads = synthetic_workloads floats rack_id;
    racks = synthetic_racks floats rack_id;
  }

  synthetic_racks-five :
      (rack_id : String)
      → is_some (before_last_r rack_id) ≡ true
      → length (synthetic_racks floats rack_id) ≡ 5
  unfolding synthetic_racks
  synthetic_racks-five rack_id named = elim (Option-cases (before_last_r rack_id)) [
    | inl e ↦ absurd (ground (arith, rw e at named))
    | inr (hall, e) ↦ rw (length, e) refl
  ]

module _ {F : Type 0} (floats : Floats F) (around : Surroundings F)
    (off : around.ts_enabled ≡ false) where
  gather_context-placeholder :
      (site_id rack_id : String)
      → is_some (before_last_r rack_id) ≡ true
      → gather_context floats around site_id rack_id ≡ ok (some (placeholder floats rack_id))
  unfolding gather_context workloads_on_rack candidate_racks synthetic_workloads
  gather_context-placeholder site_id rack_id named =
      let five = synthetic_racks-five floats rack_id named in
      let some_rack = none_of-length (synthetic_racks floats rack_id) five in
      rw (off, some_rack) refl

  -- Let TimescaleDB be off, and let an incident name a device first whose name starts with a rack's
  -- name and a dash. Then the optimizer solves the placement of three made-up workloads on five
  -- made-up racks, and publishes what is recommended by that.
  handle-placeholder :
      (cp : CpSolver) (event : IncidentReport) (s : State) (site hall rack rest : String)
      (ds : List String)
      → IsRackName site hall rack
      → event.affected_device_ids ≡ str_append (rack_name site hall rack) (str_append "-" rest) ∷ ds
      → let inp = placeholder floats (rack_name site hall rack) in
        (handle floats around cp event s
          ≡ ok (recommend floats around event (solve floats.ops cp inp) s))
        × (length inp.workloads ≡ 3)
        × (length inp.racks ≡ 5)
  unfolding handle handle_devices handle_rack handle_context synthetic_workloads
  handle-placeholder cp event s site hall rack rest ds k named =
      let found = rack_name-before site hall rack k.rack_r in
      (
        rw
            (
              named,
              (rack_for-rack_name site hall rack rest k).1,
              gather_context-placeholder event.site_id (rack_name site hall rack) found,
            )
            refl,
        refl,
        synthetic_racks-five floats (rack_name site hall rack) found,
      )
