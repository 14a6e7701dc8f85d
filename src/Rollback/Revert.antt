-- ===== src/Rollback/Revert.antt =====
-- When an action is reverted: `RollbackAgent._verify` and `_trigger_revert` of
-- apps/agents/rollback/main.py.
use dcops.Base.{
  ℕ, ◌+◌, ◌≤◌, ◌≡◌, refl, sym, subst, ap, ◌∙◌, ◌⊎◌, inl, inr, String, Bool-cases, Option-cases,
  none, some, List, [], ◌∷◌, arith, str_eq, ◌==◌, if◌then◌else◌,
}
use dcops.Base.Result.{Result, ok}
use dcops.Value.{Value, Dict}
use dcops.Events.{ActionExecuted, ActionRolledBack}
use dcops.Executor.Effects.{
  Env, Action, History, raised, no_rows, not_number, new_uuid, select, continue, publish,
  refused_message, rolled_back, number, pure, gets, emit, ◌>>=◌,
}
use dcops.Executor.Actions.{ActionResult, post_action, revert}
use dcops.Executor.Agent.{fresh_uuid, try_publish}
use dcops.Executor.Gate.{posts}
use dcops.Rollback.Verify.{
  Floats, Regression, regressions, snapshot_post, snapshot_post_kpis, trigger_revert, announce,
  build_rolled_back, reason_text, act_on, verify,
}
use dcops.Rollback.Regress.{Regressed, regressions_sound, regressions_complete}

module _ {F : Type 0} where
  -- The messages that tell of a rollback of the action, with those that the bus refused.
  unfoldable pub rollbacks : ℕ → History F → ℕ
  rollbacks id [] = 0
  rollbacks id (publish topic (rolled_back a) ∷ h) =
      (if a.action_id == id then 1 else 0) + rollbacks id h
  rollbacks id (refused_message topic (rolled_back a) ∷ h) =
      (if a.action_id == id then 1 else 0) + rollbacks id h
  rollbacks id (_ ∷ h) = rollbacks id h

module _ {F : Type 0} (env : Env F) where
  bind_ok :
      {A B : Type 0} (m : Action F A) (f : A → Action F B) (h : History F) (a : A)
      → (m h).0 ≡ ok a
      → (m >>= f) h ≡ f a (m h).1
  unfolding ◌>>=◌
  bind_ok m f h a e = ap (λ r. continue r f (m h).1) e

  -- A call that returns, calls no service and tells of no rollback.
  Quiet : {A : Type 0} → Action F A → History F → Type 0
  Quiet {A} m h =
      (a : A) × ((m h).0 ≡ ok a)
      × (posts (m h).1 ≡ posts h)
      × ((id : ℕ) → rollbacks id (m h).1 ≡ rollbacks id h)

  Quiet-pure : {A : Type 0} (a : A) (h : History F) → Quiet (pure a) h
  unfolding Quiet pure
  Quiet-pure a h = (a, refl, refl, λ id. refl)

  Quiet-gets : {A : Type 0} (f : History F → A) (h : History F) → Quiet (gets f) h
  unfolding Quiet gets
  Quiet-gets f h = (f h, refl, refl, λ id. refl)

  Quiet-select :
      (site m : String) (ds : List String) (h : History F) → Quiet (emit (select site m ds)) h
  unfolding Quiet emit posts rollbacks
  Quiet-select site m ds h = (tt, refl, refl, λ id. refl)

  Quiet-bind :
      {A B : Type 0} (m : Action F A) (f : A → Action F B) (h : History F)
      → Quiet m h
      → ((a : A) → (h' : History F) → Quiet (f a) h')
      → Quiet (m >>= f) h
  unfolding Quiet
  Quiet-bind m f h (a, e, p, r) k =
      let (b, e', p', r') = k a (m h).1 in
      rw (bind_ok m f h a e) (b, e', p' ∙ p, λ id. r' id ∙ r id)

  Quiet-snapshot_post :
      (site : String) (ds : List String) (kpis : List (String × F)) (h : History F)
      → Quiet (snapshot_post env site ds kpis) h
  unfolding snapshot_post
  Quiet-snapshot_post site ds [] h = Quiet-pure [] h
  Quiet-snapshot_post site ds ((m, pre) ∷ kpis) h = Quiet-bind _ _ h (Quiet-gets _ h) λ result h₁.
      Quiet-bind _ _ h₁ (Quiet-select site m ds h₁) λ u h₂.
        Quiet-bind _ _ h₂ (Quiet-snapshot_post site ds kpis h₂) λ out h₃.
          elim result
            as (λ k.
              Quiet {A = List (String × F)}
                (elim k [ number v ↦ pure ((m, v) ∷ out) | _ ↦ pure out ]) h₃) [
                  | raised ↦ Quiet-pure out h₃
                  | no_rows ↦ Quiet-pure out h₃
                  | not_number ↦ Quiet-pure out h₃
                  | number v ↦ Quiet-pure ((m, v) ∷ out) h₃
                ]

  Quiet-snapshot_post_kpis :
      (event : ActionExecuted F) (h : History F) → Quiet (snapshot_post_kpis env event) h
  unfolding snapshot_post_kpis
  Quiet-snapshot_post_kpis event h = elim (Bool-cases env.ts_enabled) [
    | inl on ↦ simp (on, snapshot_post_kpis) (Quiet-snapshot_post _ _ _ h)
    | inr off ↦ simp (off, snapshot_post_kpis) (Quiet-pure [] h)
  ]

  -- How often a configured service is called for one action.
  abbrev pub calls : ℕ
  calls = elim env.base_url [ none ↦ 0 | some base ↦ if str_eq base "" then 0 else 1 ]

  post_action_lem :
      (path : String) (payload : Dict) (h : History F)
      → (a : ActionResult) × ((post_action env path payload h).0 ≡ ok a)
        × (posts (post_action env path payload h).1 ≡ posts h + calls)
        × ((id : ℕ) → rollbacks id (post_action env path payload h).1 ≡ rollbacks id h)
  unfolding post_action posts rollbacks ◌>>=◌ pure
  post_action_lem path payload h = elim (Option-cases env.base_url) [
    | inl e ↦ simp (e, post_action, calls) (_, refl, omega arith, λ id. refl)
    | inr (base, e) ↦ elim (Bool-cases (str_eq base "")) [
      | inl empty ↦ simp (e, empty, post_action, calls) (_, refl, omega arith, λ id. refl)
      | inr some_base ↦ elim (Option-cases (env.http h base path payload)) [
        | inl failed ↦
            simp (e, some_base, failed, post_action, calls) (_, refl, omega arith, λ id. refl)
        | inr (json, answer) ↦
            simp (e, some_base, answer, post_action, calls) (_, refl, omega arith, λ id. refl)
      ]
    ]
  ]

  try_publish-rolled_back :
      (topic : String) (a : ActionRolledBack F) (h : History F)
      → let run = try_publish env topic (rolled_back a) h in
        (run.0 ≡ ok tt)
        × (posts run.1 ≡ posts h)
        × ((id : ℕ) → rollbacks id run.1 ≡ (if a.action_id == id then 1 else 0) + rollbacks id h)
  unfolding try_publish posts rollbacks ◌>>=◌
  try_publish-rolled_back topic a h = elim (Bool-cases (env.bus h)) [
    | inl takes ↦ simp takes (refl, refl, λ id. refl)
    | inr refuses ↦ simp refuses (refl, refl, λ id. refl)
  ]

module _ {F : Type 0} (floats : Floats F) (env : Env F) where
  -- A revert is told once, whatever the service answers.
  trigger_revert_lem :
      (event : ActionExecuted F) (kpis : List (String × F)) (rs : List (Regression F))
      (h : History F)
      → ((trigger_revert floats env event kpis rs h).0 ≡ ok tt)
        × (posts (trigger_revert floats env event kpis rs h).1 ≡ posts h + calls env)
        × ((id : ℕ)
            → rollbacks id (trigger_revert floats env event kpis rs h).1
              ≡ (if event.action_id == id then 1 else 0) + rollbacks id h)
  unfolding trigger_revert revert announce posts rollbacks fresh_uuid ◌>>=◌
  trigger_revert_lem event kpis rs h =
      let reason = reason_text floats rs in
      let (a, e, p, r) =
        post_action_lem env "/actions/revert"
          (("original_action_id", Value.str (env.uuid_text event.action_id))
            ∷ ("reason", Value.str reason)
            ∷ [])
          h in
      let done =
        bind_ok env (revert env event.action_id reason) (announce env event reason kpis) h a e in
      let h₁ : History F = (revert env event.action_id reason h).1 in
      let (ends, quiet, told) =
        try_publish-rolled_back env "actions.rolled_back"
          (build_rolled_back event (env.uuid4 h₁) reason kpis a) (new_uuid (env.uuid4 h₁) ∷ h₁) in
      (
        ap (λ (x : Result (Unit {0}) × History F). x.0) done ∙ ends,
        ap (λ (x : Result (Unit {0}) × History F). posts x.1) done ∙ quiet ∙ p,
        λ id.
            ap (λ (x : Result (Unit {0}) × History F). rollbacks id x.1) done
            ∙ told id
            ∙ ap (λ (n : ℕ). (if event.action_id == id then 1 else 0) + n) (r id),
      )

  -- What a check did to the history, given the KPIs sampled.
  abbrev pub Checked : ActionExecuted F → List (String × F) → History F → History F → Type 0
  Checked event post_kpis h h' =
      (Regressed floats event post_kpis
        × (posts h' ≡ posts h + calls env)
        × ((id : ℕ) → rollbacks id h' ≡ (if event.action_id == id then 1 else 0) + rollbacks id h))
      ⊎ ((Regressed floats event post_kpis → ⊥)
          × (posts h' ≡ posts h)
          × ((id : ℕ) → rollbacks id h' ≡ rollbacks id h))

  act_on-Checked :
      (event : ActionExecuted F) (post_kpis : List (String × F)) (rs : List (Regression F))
      (h : History F)
      → regressions floats event.pre_action_kpis post_kpis ≡ rs
      → ((act_on floats env event post_kpis rs h).0 ≡ ok tt)
        × Checked event post_kpis h (act_on floats env event post_kpis rs h).1
  unfolding act_on pure
  act_on-Checked event post_kpis [] h e = (
    refl,
    inr (
      λ (m, p, q, i, s, g).
          regressions_complete floats event.pre_action_kpis post_kpis m p q i s g e,
      refl,
      λ id. refl,
    ),
  )
  act_on-Checked event post_kpis (r ∷ rs) h e =
      let (done, p, t) = trigger_revert_lem event post_kpis (r ∷ rs) h in
      (done, inl (regressions_sound floats event.pre_action_kpis post_kpis r rs e, p, t))

  -- A check always ends. Where a KPI recorded before the action was sampled again and is worse, it
  -- calls the service once, if one is configured, and publishes one rollback, of this action, that
  -- the bus takes or refuses; where no such KPI is, it calls nothing and publishes nothing.
  pub verify-Checked :
      (event : ActionExecuted F) (h : History F)
      → (post_kpis : List (String × F)) × ((snapshot_post_kpis env event h).0 ≡ ok post_kpis)
        × ((verify floats env event h).0 ≡ ok tt)
        × Checked event post_kpis h (verify floats env event h).1
  unfolding verify Quiet
  verify-Checked event h =
      let (out, e, p, r) = Quiet-snapshot_post_kpis env event h in
      let rs = regressions floats event.pre_action_kpis out in
      let h₁ = (snapshot_post_kpis env event h).1 in
      let same =
        bind_ok env (snapshot_post_kpis env event)
          (λ kpis. act_on floats env event kpis (regressions floats event.pre_action_kpis kpis)) h
          out e in
      let (done, checked) = act_on-Checked event out rs h₁ refl in
      (
        out,
        e,
        ap (λ (x : Result (Unit {0}) × History F). x.0) same ∙ done,
        subst (λ (x : Result (Unit {0}) × History F). Checked event out h x.1) (sym same)
            (elim checked [
              | inl (g, q, t) ↦ inl (g, omega (arith, p, q), λ id. omega (arith, r id, t id))
              | inr (g, q, t) ↦ inr (g, omega (arith, p, q), λ id. omega (arith, r id, t id))
            ]),
      )

  -- An upper bound for one identifier.
  pub verify-rollbacks :
      (event : ActionExecuted F) (h : History F) (id : ℕ)
      → rollbacks id (verify floats env event h).1
        ≤ (if event.action_id == id then 1 else 0) + rollbacks id h
  verify-rollbacks event h id = elim (verify-Checked event h).3 [
    | inl (g, q, t) ↦ omega (arith, t id)
    | inr (g, q, t) ↦ omega (arith, t id)
  ]
