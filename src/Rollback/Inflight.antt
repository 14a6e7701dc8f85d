-- ===== src/Rollback/Inflight.antt =====
-- The checks in flight of apps/agents/rollback/main.py: `_inflight` against the tasks, and how
-- often an action can be rolled back.
use dcops.Base.{
  ℕ, zero, suc, ◌≡◌, refl, sym, subst, ap, ◌⊎◌, ◌∙◌, inl, inr, Bool-cases, true, false, not, Option,
  none, some, List, [], ◌∷◌, map, arith,
}
use dcops.Events.{ActionExecuted}
use dcops.Executor.Effects.{Env, History}
use dcops.Rollback.Verify.{Floats}
use dcops.Rollback.Monitor.{
  Monitor, Happening, received, ended, mem, discard, pick, no_kpis, handle, verify_later, step, run,
}

-- No identifier stands twice.
abbrev pub Unique : List ℕ → Type 0
Unique [] = Unit
Unique (n ∷ ns) = (mem n ns ≡ false) × Unique ns

discard-absent : (n : ℕ) (ns : List ℕ) → mem n ns ≡ false → discard n ns ≡ ns
unfolding mem discard
discard-absent n [] h = refl
discard-absent n (m ∷ ns) h = ground (arith, discard-absent n ns (ground (arith, h)))

module _ {F : Type 0} where
  abbrev pub id_of : ActionExecuted F → ℕ
  id_of event = event.action_id

  -- The actions in flight are those with a check, and each has one.
  pub record Matched (m : Monitor F) : Type 0 where
    pub one_each : m.inflight ≡ map id_of m.asleep
    pub unique : Unique m.inflight

  -- What is left when a check ends.
  Left : List (ActionExecuted F) → Option (ActionExecuted F × List (ActionExecuted F)) → Type 0
  Left es none = Unit
  Left es (some (e, rest)) =
      (discard e.action_id (map id_of es) ≡ map id_of rest)
      × Unique (map id_of rest)
      × (mem e.action_id (map id_of es) ≡ true)
      × ((n : ℕ) → mem n (map id_of es) ≡ false → mem n (map id_of rest) ≡ false)

  pick-Left : (n : ℕ) (es : List (ActionExecuted F)) → Unique (map id_of es) → Left es (pick n es)
  unfolding pick Left mem discard
  pick-Left n [] u = tt
  pick-Left zero (e ∷ es) (new, u) = (
    ground (arith, discard-absent e.action_id (map id_of es) new, new),
    u,
    ground arith,
    λ n h. ground (arith, h),
  )
  pick-Left (suc n) (e ∷ es) (new, u) = go (pick n es) (pick-Left n es u)
    where
      go :
          (p : Option (ActionExecuted F × List (ActionExecuted F)))
          → Left es p
          → Left (e ∷ es) (elim p [ none ↦ none | some (y, ys) ↦ some (y, e ∷ ys) ])
      go none l = tt
      go (some (y, ys)) (d, v, m, k) = (
        ground (arith, d, m, new),
        (k e.action_id new, v),
        ground (arith, m),
        λ n h. ground (arith, h, k n (ground (arith, h))),
      )

module _ {F : Type 0} (floats : Floats F) (env : Env F) where
  -- An event is dropped, or it starts a check.
  pub handle-cases :
      (event : ActionExecuted F) (m : Monitor F)
      → (handle floats env event m ≡ m)
        ⊎ ((event.success ≡ true)
            × (no_kpis event.pre_action_kpis ≡ false)
            × (mem event.action_id m.inflight ≡ false)
            × (handle floats env event m
                ≡ record m { inflight = event.action_id ∷ m.inflight; asleep = event ∷ m.asleep }))
  unfolding handle
  handle-cases event m = elim (Bool-cases (not event.success)) [
    | inl failed ↦ inl (simp failed refl)
    | inr done ↦ elim (Bool-cases (no_kpis event.pre_action_kpis)) [
      | inl nothing ↦ inl (simp (done, nothing) refl)
      | inr kpis ↦ elim (Bool-cases (mem event.action_id m.inflight)) [
        | inl twice ↦ inl (simp (done, kpis, twice) refl)
        | inr new ↦ inr (ground (arith, done), kpis, new, simp (done, kpis, new) refl)
      ]
    ]
  ]

  Matched-step : (x : Happening F) (m : Monitor F) → Matched m → Matched (step floats env x m)
  unfolding step verify_later Left
  Matched-step (received event) m k = elim (handle-cases event m) [
    | inl same ↦ simp same k
    | inr (s, p, new, e) ↦ simp e (record {
      one_each = ap (λ (ns : List ℕ). event.action_id ∷ ns) k.one_each;
      unique = (new, k.unique);
    })
  ]
  Matched-step (ended n) m k =
      go (pick n m.asleep) (pick-Left n m.asleep (rw k.one_each at k.unique))
    where
      go :
          (p : Option (ActionExecuted F × List (ActionExecuted F)))
          → Left m.asleep p
          → Matched
              (elim p [ none ↦ m | some (event, rest) ↦ verify_later floats env event rest m ])
      go none l = k
      go (some (y, ys)) (d, v, i, o) =
          let e : discard y.action_id m.inflight ≡ map id_of ys =
            ap (discard y.action_id) k.one_each ∙ d in
          record { one_each = e; unique = subst Unique (sym e) v }

  Matched-run :
      (xs : List (Happening F)) (m : Monitor F) → Matched m → Matched (run floats env xs m)
  unfolding run
  Matched-run [] m k = k
  Matched-run (x ∷ xs) m k = Matched-run xs (step floats env x m) (Matched-step x m k)

  -- After any receptions and ends of checks, in any order, the identifiers in `_inflight` are those
  -- of the checks that have not ended, and no action has two such checks.
  pub run-Matched :
      (xs : List (Happening F)) (h : History F)
      → Matched (run floats env xs (record { inflight = []; asleep = []; history = h }))
  run-Matched xs h = Matched-run xs _ (record { one_each = refl; unique = tt })
