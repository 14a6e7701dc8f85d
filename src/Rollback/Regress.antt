-- ===== src/Rollback/Regress.antt =====
-- What `regressions` finds: the loop of `RollbackAgent._verify` in apps/agents/rollback/main.py.
use mathlib.Core.List.{Memᴰ}
use dcops.Base.{
  ◌≡◌, ◌≢◌, refl, ap, inl, inr, String, Bool-cases, Option-cases, true, some, List, [], ◌∷◌, arith,
}
use dcops.Value.{lookup}
use dcops.Events.{ActionExecuted}
use dcops.Rollback.Verify.{Floats, Regression, is_regression, regressions}

module _ {F : Type 0} where
  -- A KPI of the action was sampled again, and it is worse.
  abbrev pub Regressed : Floats F → ActionExecuted F → List (String × F) → Type 0
  Regressed floats event post_kpis =
      (metric : String) × (pre : F) × (post : F) × Memᴰ (metric, pre) event.pre_action_kpis
      × (lookup metric post_kpis ≡ some post)
      × (is_regression floats metric pre post ≡ true)

  pub regressions_sound :
      (floats : Floats F) (kpis post_kpis : List (String × F)) (r : Regression F)
      (rs : List (Regression F))
      → regressions floats kpis post_kpis ≡ r ∷ rs
      → (metric : String) × (pre : F) × (post : F) × Memᴰ (metric, pre) kpis
        × (lookup metric post_kpis ≡ some post)
        × (is_regression floats metric pre post ≡ true)
  unfolding regressions
  regressions_sound floats [] post_kpis r rs e = absurd (ground (arith, e))
  regressions_sound floats ((m, pre) ∷ kpis) post_kpis r rs e =
      elim (Option-cases (lookup m post_kpis)) [
        | inl missing ↦
            let (n, p, q, i, s, g) =
              regressions_sound floats kpis post_kpis r rs (rw (missing, regressions) at e) in
            (n, p, q, Memᴰ.tail i, s, g)
        | inr (post, sampled) ↦ elim (Bool-cases (is_regression floats m pre post)) [
          | inl worse ↦ (m, pre, post, Memᴰ.head refl, sampled, worse)
          | inr fine ↦
              let (n, p, q, i, s, g) =
                regressions_sound floats kpis post_kpis r rs
                  (rw (sampled, regressions, fine) at e) in
              (n, p, q, Memᴰ.tail i, s, g)
        ]
      ]

  pub regressions_complete :
      (floats : Floats F) (kpis post_kpis : List (String × F)) (metric : String) (pre post : F)
      → Memᴰ (metric, pre) kpis
      → lookup metric post_kpis ≡ some post
      → is_regression floats metric pre post ≡ true
      → regressions floats kpis post_kpis ≢ []
  unfolding regressions
  regressions_complete floats [] post_kpis metric pre post i s g = elim i [ ]
  regressions_complete floats ((m, p) ∷ kpis) post_kpis metric pre post (Memᴰ.head e) s g =
      let em = ap (λ (x : String × F). x.0) e in
      let ep = ap (λ (x : String × F). x.1) e in
      let s' = (rw em at s) in
      let g' = (rw (em, ep) at g) in rw (s', regressions, g') (λ z. ground (arith, z))
  regressions_complete floats ((m, p) ∷ kpis) post_kpis metric pre post (Memᴰ.tail i) s g =
      elim (Option-cases (lookup m post_kpis)) [
        | inl missing ↦
            rw (missing, regressions)
              (regressions_complete floats kpis post_kpis metric pre post i s g)
        | inr (q, sampled) ↦ elim (Bool-cases (is_regression floats m p q)) [
          | inl worse ↦ rw (sampled, regressions, worse) (λ z. ground (arith, z))
          | inr fine ↦
              rw (sampled, regressions, fine)
                (regressions_complete floats kpis post_kpis metric pre post i s g)
        ]
      ]
