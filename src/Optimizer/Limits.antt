-- ===== src/Optimizer/Limits.antt =====
-- What the constraints of apps/agents/optimizer/solver.py mean, and what an assignment that
-- satisfies them keeps to.
use dcops.Base.{
  ℕ, ◌+◌, ◌*◌, ◌≤◌, ◌≡◌, refl, subst, inl, inr, String, Bool, Bool-cases, true, false, not, ◌&&◌,
  List, [], ◌∷◌, ◌++◌, All, all, length, length-append, leb, str_eq, str_mem, ◌==◌, if◌then◌else◌,
  eq_iff, arith,
}
use dcops.Optimizer.Solver.{
  Arith, Workload, Rack, PlannedMove, Status, optimal, feasible, Var, Constraint, exactly_one,
  at_most, Assignment, CpSolver, vars_of, placements, terms, power_of, heat_of, power_limits,
  heat_limits, spread, tiers, constraints, to_move, moves_of, all_moves,
}

abbrev bit : Bool → ℕ
bit b = if b then 1 else 0

abbrev count : Assignment → List Var → ℕ
count x [] = 0
count x ((w, r) ∷ vs) = bit (x w r) + count x vs

abbrev weight : Assignment → List (ℕ × Var) → ℕ
weight x [] = 0
weight x ((c, (w, r)) ∷ ts) = c * bit (x w r) + weight x ts

-- The meaning of a constraint.
abbrev pub holds : Assignment → Constraint → Bool
holds x (exactly_one vs) = count x vs == 1
holds x (at_most ts bound) = leb (weight x ts) bound

abbrev pub solved : Status → Bool
solved optimal = true
solved feasible = true
solved _ = false

-- CP-SAT's contract: with the status OPTIMAL or FEASIBLE, the values satisfy every constraint.
abbrev pub Sound : CpSolver → Type 0
Sound cp =
    (cs : List Constraint) (cost : List (ℕ × Var))
    → solved (cp cs cost).0 ≡ true
    → all (holds (cp cs cost).1) cs ≡ true

all-append :
    {A : Type 0} (p : A → Bool) (xs ys : List A) → all p (xs ++ ys) ≡ (all p xs && all p ys)
all-append p [] ys = refl
all-append p (x ∷ xs) ys = ground (arith, all-append p xs ys)

module _ {F : Type 0} where
  -- The load of the moves that go to a rack.
  abbrev pub into : (PlannedMove F → ℕ) → String → List (PlannedMove F) → ℕ
  into size rid [] = 0
  into size rid (m ∷ ms) = (if str_eq m.to_rack_id rid then size m else 0) + into size rid ms

  abbrev pub ids : List (Rack F) → List String
  ids [] = []
  ids (r ∷ rs) = r.id ∷ ids rs

  abbrev pub Distinct : List (Rack F) → Type 0
  Distinct [] = Unit
  Distinct (r ∷ rs) = (str_mem r.id (ids rs) ≡ false) × Distinct rs

  into-append :
      (size : PlannedMove F → ℕ) (rid : String) (xs ys : List (PlannedMove F))
      → into size rid (xs ++ ys) ≡ into size rid xs + into size rid ys
  into-append size rid [] ys = omega arith
  into-append size rid (x ∷ xs) ys = omega (arith, into-append size rid xs ys)

  module _ (x : Assignment) (size : PlannedMove F → ℕ) where
    into_absent :
        (w : Workload F) (rid : String) (rs : List (Rack F))
        → str_mem rid (ids rs) ≡ false
        → into size rid (moves_of x w rs) ≡ 0
    unfolding moves_of
    into_absent w rid [] h = refl
    into_absent w rid (r ∷ rs) h =
        let rest = into_absent w rid rs in
        elim (Bool-cases (x w.id r.id && not (str_eq r.id w.current_rack_id))) [
          | inl e ↦ rw e (ground (arith, h, rest, eq_iff r.id rid, eq_iff rid r.id))
          | inr e ↦ rw e (ground (arith, h, rest))
        ]

    into_one :
        (w : Workload F) (rid : String) (rs : List (Rack F)) (n : ℕ)
        → Distinct rs
        → ((r : Rack F) → size (to_move w r) ≡ n)
        → into size rid (moves_of x w rs) ≤ n * bit (x w.id rid)
    unfolding moves_of
    into_one w rid [] n d e = omega arith
    into_one w rid (r ∷ rs) n (d, ds) e =
        let absent = into_absent w rid rs in
        let rest = into_one w rid rs n ds e in
        elim (Bool-cases (str_eq r.id rid)) [
          | inl here ↦
              let same : r.id ≡ rid = (eq_iff r.id rid).0 here in
              let no_more = absent (subst (λ (i : String). str_mem i (ids rs) ≡ false) same d) in
              elim (Bool-cases (x w.id r.id)) [
                | inl on ↦
                    rw (on, subst (λ (i : String). x w.id i ≡ true) same on)
                      (ground (arith, no_more, here, e r))
                | inr off ↦ rw off (omega (arith, no_more))
              ]
          | inr other ↦ elim (Bool-cases (x w.id r.id && not (str_eq r.id w.current_rack_id))) [
            | inl on ↦ rw on (ground (arith, other, rest))
            | inr off ↦ rw off rest
          ]
        ]

    -- The moves into a rack weigh no more than what its constraint adds up.
    into_all :
        (coef : Workload F → ℕ)
        → ((w : Workload F) (r : Rack F) → size (to_move w r) ≡ coef w)
        → (ws : List (Workload F)) (rs : List (Rack F)) (r : Rack F) → Distinct rs
        → into size r.id (all_moves x ws rs) ≤ weight x (terms coef ws r)
    unfolding all_moves
    into_all coef e [] rs r d = omega arith
    into_all coef e (w ∷ ws) rs r d = omega (
      arith,
      into-append size r.id (moves_of x w rs) (all_moves x ws rs),
      into_one w r.id rs (coef w) d (e w),
      into_all coef e ws rs r d,
    )

  -- Power and heat of a rack, each within the rack's.
  abbrev pub Within : Arith F → List (PlannedMove F) → Rack F → Type 0
  Within ops ms r =
      (into (λ m. ops.milli m.expected_power_w) r.id ms ≤ ops.milli r.pdu_capacity_w)
      × (into (λ m. ops.milli m.expected_thermal_kw) r.id ms ≤ ops.milli r.thermal_headroom_kw)

  pub Within-none : (ops : Arith F) (rs : List (Rack F)) → All (Within ops []) rs
  Within-none ops [] = tt
  Within-none ops (r ∷ rs) = ((omega arith, omega arith), Within-none ops rs)

module _ {F : Type 0} (ops : Arith F) (x : Assignment) where
  pub Within-racks :
      (ws : List (Workload F)) (rs some_racks : List (Rack F))
      → Distinct rs
      → all (holds x) (power_limits ops ws some_racks) ≡ true
      → all (holds x) (heat_limits ops ws some_racks) ≡ true
      → All (Within ops (all_moves x ws rs)) some_racks
  Within-racks ws rs [] d p h = tt
  Within-racks ws rs (r ∷ some_racks) d p h =
      let power =
        into_all x (λ m. ops.milli m.expected_power_w) (power_of ops) (λ w r. refl) ws rs r d in
      let heat =
        into_all x (λ m. ops.milli m.expected_thermal_kw) (heat_of ops) (λ w r. refl) ws rs r d in
      (
        (ground (arith, power, p), ground (arith, heat, h)),
        Within-racks ws rs some_racks d (ground (arith, p)) (ground (arith, h)),
      )

  pub all-parts :
      (ws : List (Workload F)) (rs : List (Rack F))
      → all (holds x) (constraints ops ws rs) ≡ true
      → (all (holds x) (placements ws rs) ≡ true)
        × (all (holds x) (power_limits ops ws rs) ≡ true)
        × (all (holds x) (heat_limits ops ws rs) ≡ true)
  unfolding constraints
  all-parts ws rs h =
      let groups = spread ws rs (tiers ws) in
      let a =
        all-append (holds x) (placements ws rs)
          (power_limits ops ws rs ++ (heat_limits ops ws rs ++ groups)) in
      let b = all-append (holds x) (power_limits ops ws rs) (heat_limits ops ws rs ++ groups) in
      let c = all-append (holds x) (heat_limits ops ws rs) groups in
      (ground (arith, h, a), ground (arith, h, a, b), ground (arith, h, a, b, c))

  length-moves_of :
      (w : Workload F) (rs : List (Rack F)) → length (moves_of x w rs) ≤ count x (vars_of w rs)
  unfolding moves_of
  length-moves_of w [] = omega arith
  length-moves_of w (r ∷ rs) =
      let rest = length-moves_of w rs in
      elim (Bool-cases (x w.id r.id)) [
        | inl on ↦ rw on (ground (arith, rest))
        | inr off ↦ rw off (omega (arith, rest))
      ]

  pub length-all_moves :
      (ws : List (Workload F)) (rs : List (Rack F))
      → all (holds x) (placements ws rs) ≡ true
      → length (all_moves x ws rs) ≤ length ws
  unfolding all_moves
  length-all_moves [] rs h = omega arith
  length-all_moves (w ∷ ws) rs h =
      let rest = length-all_moves ws rs (ground (arith, h)) in
      let one : count x (vars_of w rs) ≡ 1 = ground (arith, h) in
      omega (
        arith,
        rest,
        one,
        length-moves_of w rs,
        length-append (moves_of x w rs) (all_moves x ws rs),
      )
