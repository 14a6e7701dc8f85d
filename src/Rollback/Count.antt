-- ===== src/Rollback/Count.antt =====
-- How often an action is rolled back: the checks in flight and the history of
-- apps/agents/rollback/main.py against the events received.
use dcops.Base.{
  ℕ, zero, suc, ◌+◌, ◌≤◌, ◌≡◌, refl, inl, inr, not, ◌&&◌, Option, none, some, List, [], ◌∷◌, arith,
  ◌==◌, if◌then◌else◌,
}
use dcops.Events.{ActionExecuted}
use dcops.Executor.Effects.{Env, History}
use dcops.Rollback.Verify.{Floats}
use dcops.Rollback.Monitor.{
  Monitor, Happening, received, ended, pick, no_kpis, verify_later, step, run,
}
use dcops.Rollback.Inflight.{handle-cases}
use dcops.Rollback.Revert.{rollbacks, verify-rollbacks}

module _ {F : Type 0} (id : ℕ) where
  -- 1 for an event of this action, else 0.
  abbrev pub counted : ActionExecuted F → ℕ
  counted event = if event.action_id == id then 1 else 0

  -- The receptions of this action that report a success and carry KPIs.
  unfoldable pub eligible : List (Happening F) → ℕ
  eligible [] = 0
  eligible (received event ∷ xs) =
      (if event.success && not (no_kpis event.pre_action_kpis) then counted event else 0)
      + eligible xs
  eligible (ended n ∷ xs) = eligible xs

  pending : List (ActionExecuted F) → ℕ
  pending [] = 0
  pending (e ∷ es) = counted e + pending es

  Parted : List (ActionExecuted F) → Option (ActionExecuted F × List (ActionExecuted F)) → Type 0
  Parted es none = Unit
  Parted es (some (e, rest)) = pending es ≡ counted e + pending rest

  pick-Parted : (n : ℕ) (es : List (ActionExecuted F)) → Parted es (pick n es)
  unfolding pick Parted pending
  pick-Parted n [] = tt
  pick-Parted zero (e ∷ es) = refl
  pick-Parted (suc n) (e ∷ es) = go (pick n es) (pick-Parted n es)
    where
      go :
          (p : Option (ActionExecuted F × List (ActionExecuted F)))
          → Parted es p
          → Parted (e ∷ es) (elim p [ none ↦ none | some (y, ys) ↦ some (y, e ∷ ys) ])
      go none l = tt
      go (some (y, ys)) l = omega (arith, l)

  -- What has been told, and what can still be told.
  weight : Monitor F → ℕ
  weight m = rollbacks id m.history + pending m.asleep

module _ {F : Type 0} (floats : Floats F) (env : Env F) (id : ℕ) where
  weight-step :
      (x : Happening F) (m : Monitor F)
      → weight id (step floats env x m) ≤ weight id m + eligible id (x ∷ [])
  unfolding step verify_later Parted pending weight eligible
  weight-step (received event) m = elim (handle-cases floats env event m) [
    | inl same ↦ simp same (omega arith)
    | inr (s, p, new, e) ↦ simp (e, s, p) (omega arith)
  ]
  weight-step (ended n) m = go (pick n m.asleep) (pick-Parted id n m.asleep)
    where
      go :
          (p : Option (ActionExecuted F × List (ActionExecuted F)))
          → Parted id m.asleep p
          → weight id
              (elim p [ none ↦ m | some (event, rest) ↦ verify_later floats env event rest m ])
            ≤ weight id m + 0
      go none l = omega arith
      go (some (y, ys)) l = omega (arith, l, verify-rollbacks floats env y m.history id)

  weight-run :
      (xs : List (Happening F)) (m : Monitor F)
      → weight id (run floats env xs m) ≤ weight id m + eligible id xs
  unfolding run eligible
  weight-run [] m = omega arith
  weight-run (received e ∷ xs) m =
      omega (arith, weight-step (received e) m, weight-run xs (step floats env (received e) m))
  weight-run (ended n ∷ xs) m =
      omega (arith, weight-step (ended n) m, weight-run xs (step floats env (ended n) m))

  -- However receptions and ends of checks interleave, an action is rolled back at most as often as
  -- it was received as a success with KPIs; so never, if it failed or had none.
  pub run-rollbacks :
      (xs : List (Happening F)) (h : History F)
      → rollbacks id
          (run floats env xs (record { inflight = []; asleep = []; history = h })).history
        ≤ rollbacks id h + eligible id xs
  unfolding weight pending
  run-rollbacks xs h =
      omega (arith, weight-run xs (record { inflight = []; asleep = []; history = h }))
