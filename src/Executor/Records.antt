-- ===== src/Executor/Records.antt =====
-- What accounts for a recommendation: one record in `actions:recent`, or one message for a human,
-- where Redis and the bus take them.
use mathlib.Core.Option.{some-injective, none-ne-some}
use dcops.Base.{
  ℕ, ◌+◌, ◌<◌, suc, ◌≡◌, refl, ap, ◌-◌, ◌∙◌, subst, inl, inr, Bool-cases, Option-cases, String,
  true, some, List, [], ◌∷◌, arith, str_eq, if◌then◌else◌,
}
use dcops.Base.Result.{Result, ok, err}
use dcops.Value.{Value, Dict}
use dcops.Events.{Recommendation, ActionExecuted}
use dcops.Policy.Rules.{approved, denied, needs_human, RuleLanguage}
use dcops.Policy.Engine.{PolicyEngine, Outcome, evaluate}
use dcops.Executor.Effects.{
  Env, Action, History, publish, lpush, ltrim, refused_record, select, new_uuid, executed,
  for_human, continue, pure, lift, ◌>>=◌,
}
use dcops.Executor.Actions.{
  ActionResult, resolve, post_action, handle_workload_migration, handle_fan_speed, fan_speed_of,
}
use dcops.Executor.Agent.{
  fresh_uuid, report, no_handler, kpi_metrics_for, persist_action, try_publish, snapshot_kpis,
  snapshot_metrics, record_denied, publish_needs_human, run_handler, execute, dispatch,
  handle_recommendation,
}
use dcops.Executor.Gate.{posts}

module _ {F : Type 0} where
  -- The records that Redis took for `actions:recent`, the latest first.
  unfoldable pub pushes : History F → List (ActionExecuted F)
  pushes [] = []
  pushes (lpush key a ∷ h) = a ∷ pushes h
  pushes (_ ∷ h) = pushes h

  -- The messages for a human that the bus took.
  unfoldable pub asked : History F → ℕ
  asked [] = 0
  asked (publish topic (for_human rec) ∷ h) = suc (asked h)
  asked (_ ∷ h) = asked h

  -- An action that records nothing, asks nobody and keeps the count of calls.
  record Silent {A : Type 0} (m : Action F A) : Type 0 where
    pushed : (h : History F) → pushes (m h).1 ≡ pushes h
    asking : (h : History F) → asked (m h).1 ≡ asked h
    calling : (h : History F) → posts (m h).1 ≡ posts h

module _ {F : Type 0} (env : Env F) where
  Silent-fresh_uuid : Silent (fresh_uuid env)
  unfolding fresh_uuid pushes asked posts ◌>>=◌
  Silent-fresh_uuid = record { pushed = λ h. refl; asking = λ h. refl; calling = λ h. refl }

  Silent-snapshot_metrics :
      (rec : Recommendation) (ms : List String) (h : History F)
      → (pushes (snapshot_metrics env rec ms h).1 ≡ pushes h)
        × (asked (snapshot_metrics env rec ms h).1 ≡ asked h)
        × (posts (snapshot_metrics env rec ms h).1 ≡ posts h)
  unfolding pushes asked posts snapshot_metrics ◌>>=◌
  Silent-snapshot_metrics rec [] h = (refl, refl, refl)
  Silent-snapshot_metrics rec (m ∷ ms) h =
      ground
        (arith, Silent-snapshot_metrics rec ms (select rec.site_id m rec.target_device_ids ∷ h))

  Silent-snapshot_kpis : (rec : Recommendation) → Silent (snapshot_kpis env rec)
  unfolding snapshot_kpis pure
  Silent-snapshot_kpis rec = record {
    pushed = λ h. ground (arith, Silent-snapshot_metrics rec (kpi_metrics_for rec.kind) h);
    asking = λ h. ground (arith, Silent-snapshot_metrics rec (kpi_metrics_for rec.kind) h);
    calling = λ h. ground (arith, Silent-snapshot_metrics rec (kpi_metrics_for rec.kind) h);
  }

  -- A handler records nothing itself, asks nobody, and reports a success for a call only.
  record IsHandler (m : Action F ActionResult) : Type 0 where
    pushed : (h : History F) → pushes (m h).1 ≡ pushes h
    asking : (h : History F) → asked (m h).1 ≡ asked h
    honest : (h : History F) (v : Value) → (m h).0 ≡ ok (true, v) → posts (m h).1 ≡ posts h + 1

  IsHandler-post_action :
      (path : String) (payload : Dict) → IsHandler (post_action env path payload)
  unfolding post_action pushes asked posts ◌>>=◌
  IsHandler-post_action path payload = record {
    pushed = λ h. ground arith;
    asking = λ h. ground arith;
    honest = λ h v e. ground arith;
  }

  IsHandler-continue :
      (r : Result Value) (f : Value → Action F ActionResult)
      → ((v : Value) → IsHandler (f v))
      → IsHandler (continue r f)
  IsHandler-continue (ok v) f k = k v
  IsHandler-continue (err e) f k = record {
    pushed = λ h. refl;
    asking = λ h. refl;
    honest = λ h v e'. cc;
  }

  IsHandler-fan_speed_of :
      (rec : Recommendation) (id : ℕ) (ds : List String) → IsHandler (fan_speed_of env rec id ds)
  unfolding ◌>>=◌
  IsHandler-fan_speed_of rec id [] = record {
    pushed = λ h. refl;
    asking = λ h. refl;
    honest = λ h v e. ground arith;
  }
  IsHandler-fan_speed_of rec id (d ∷ ds) =
      IsHandler-continue (env.to_float _) _ λ percent. IsHandler-post_action _ _

  IsHandler-resolved :
      (rec : Recommendation) (handler : Recommendation → ℕ → Action F ActionResult)
      → resolve env rec.kind ≡ some handler
      → (id : ℕ) → IsHandler (handler rec id)
  unfolding resolve handle_workload_migration handle_fan_speed
  IsHandler-resolved rec handler e id = elim (Bool-cases (str_eq rec.kind "workload_migration")) [
    | inl m ↦
        subst (λ (k : Recommendation → ℕ → Action F ActionResult). IsHandler (k rec id))
          (some-injective _ _ (rw (m, resolve) at e)) (IsHandler-post_action _ _)
    | inr m ↦ elim (Bool-cases (str_eq rec.kind "fan_speed_adjust")) [
      | inl f ↦
          subst (λ (k : Recommendation → ℕ → Action F ActionResult). IsHandler (k rec id))
            (some-injective _ _ (rw (m, resolve, f) at e))
            (IsHandler-fan_speed_of rec id rec.target_device_ids)
      | inr f ↦ absurd (none-ne-some _ (rw (m, resolve, f) at e))
    ]
  ]

  -- The history after a record is offered to Redis.
  abbrev pub offered : ActionExecuted F → History F → History F
  offered a g =
      if env.redis g
      then ltrim "actions:recent" 0 (env.actions_keep - 1) ∷ lpush "actions:recent" a ∷ g
      else refused_record a ∷ g

  -- With a Redis client, the record is kept exactly if Redis takes it then.
  persist_action_lem :
      (a : ActionExecuted F) (h : History F)
      → env.has_client ≡ true
      → (pushes (persist_action env a h).1 ≡ (if env.redis h then a ∷ pushes h else pushes h))
        × ((persist_action env a h).1 ≡ offered a h)
        × (asked (persist_action env a h).1 ≡ asked h)
        × (posts (persist_action env a h).1 ≡ posts h)
  unfolding persist_action pushes asked posts ◌>>=◌
  persist_action_lem a h c = elim (Bool-cases (env.redis h)) [
    | inl takes ↦ simp (c, takes) (refl, refl, refl, refl)
    | inr refuses ↦ simp (c, refuses) (refl, refl, refl, refl)
  ]

  -- At the end of the handling, from the history `g`, one record of this recommendation is offered to Redis, which
  -- keeps it or refuses it. It reports a success only where `ran` holds. Nothing else is kept, and
  -- no message goes to a human.
  abbrev pub Recorded : Recommendation → Type 0 → History F → History F → Type 0
  Recorded rec ran h h' =
      (a : ActionExecuted F) × (g : History F) × (pushes h'
        ≡ (if env.redis g then a ∷ pushes h else pushes h))
      × (h' ≡ offered a g)
      × (asked h' ≡ asked h)
      × (a.recommendation_id ≡ rec.recommendation_id)
      × (a.success ≡ true → ran)

  record_denied-Recorded :
      (rec : Recommendation) (reason : String) (h : History F)
      → env.has_client ≡ true
      → Recorded rec ⊥ h (record_denied env rec reason h).1
  unfolding record_denied ◌>>=◌ fresh_uuid pushes asked
  record_denied-Recorded rec reason h c =
      let h₁ : History F = new_uuid (env.uuid4 h) ∷ h in
      let h₂ : History F = new_uuid (env.uuid4 h₁) ∷ h₁ in
      let kept = persist_action_lem _ h₂ c in (_, h₂, kept.0, kept.1, kept.2, refl, λ t. cc)

  Ends : {A : Type 0} → (History F → Type 0) → Action F A → History F → Type 0
  Ends {A} Q m h = (a : A) → (m h).0 ≡ ok a → Q (m h).1

  Ends-bind :
      {A B : Type 0} (Q : History F → Type 0) (m : Action F A) (f : A → Action F B) (h : History F)
      → ((a : A) → (m h).0 ≡ ok a → Ends Q (f a) (m h).1)
      → Ends Q (m >>= f) h
  unfolding Ends ◌>>=◌
  Ends-bind {A} {B} Q m f h k = go (m h).0 refl
    where
      go :
          (r : Result A)
          → (m h).0 ≡ r
          → (b : B) → (continue r f (m h).1).0 ≡ ok b
          → Q (continue r f (m h).1).1
      go (ok a) e b eb = k a e b eb
      go (err x) e b eb = cc

  -- The event of the action is no record and no message for a human.
  try_publish-executed :
      (a : ActionExecuted F) (h : History F)
      → let h' = (try_publish env "actions.executed" (executed a) h).1 in
        (pushes h' ≡ pushes h) × (asked h' ≡ asked h) × (posts h' ≡ posts h)
  unfolding try_publish pushes asked posts ◌>>=◌
  try_publish-executed a h = elim (Bool-cases (env.bus h)) [
    | inl takes ↦ simp takes (refl, refl, refl)
    | inr refuses ↦ simp refuses (refl, refl, refl)
  ]

  -- The last steps of `_execute`, from the history that the handler left.
  report-Recorded :
      (rec : Recommendation) (a : ActionExecuted F) (p : Result Dict) (h h₃ : History F)
      → env.has_client ≡ true
      → a.recommendation_id ≡ rec.recommendation_id
      → pushes h₃ ≡ pushes h
      → asked h₃ ≡ asked h
      → (a.success ≡ true → posts h₃ ≡ posts h + 1)
      → Ends
          (λ h'. Recorded rec (posts h < posts h') h h')
          (persist_action env a)
          (try_publish env "actions.executed" (executed a) (fresh_uuid env (lift p h₃).1).1).1
  unfolding Ends ◌>>=◌ fresh_uuid pushes asked posts
  report-Recorded rec a p h h₃ c same p₃ a₃ honest end done =
      let h₄ : History F = new_uuid (env.uuid4 h₃) ∷ h₃ in
      let h₅ = (try_publish env "actions.executed" (executed a) h₄).1 in
      let told = try_publish-executed a h₄ in
      let kept = persist_action_lem a h₅ c in
      (
        a,
        h₅,
        kept.0
            ∙ ap (λ (r : List (ActionExecuted F)). if env.redis h₅ then a ∷ r else r) (told.0 ∙ p₃),
        kept.1,
        kept.2 ∙ told.1 ∙ a₃,
        same,
        λ success. omega (arith, kept.3, told.2, honest success),
      )

  run_handler-Recorded :
      (rec : Recommendation) (handler : Recommendation → ℕ → Action F ActionResult) (h : History F)
      → env.has_client ≡ true
      → ((id : ℕ) → IsHandler (handler rec id))
      → Ends (λ h'. Recorded rec (posts h < posts h') h h') (run_handler env rec handler) h
  unfolding run_handler
  run_handler-Recorded rec handler h c k = Ends-bind _ _ _ h λ id e₁. Ends-bind _ _ _ _ λ kpis e₂.
      Ends-bind _ _ _ _ λ (result : ActionResult) e₃. Ends-bind _ _ _ _ λ payload e₄.
        Ends-bind _ _ _ _ λ event_id e₅. Ends-bind _ _ _ _ λ u e₆.
          let h₁ = (fresh_uuid env h).1 in
          let h₂ = (snapshot_kpis env rec h₁).1 in
          let fresh = Silent-fresh_uuid in
          let read = Silent-snapshot_kpis rec in
          report-Recorded rec (report env rec id event_id result.0 payload kpis) _ h
            (handler rec id h₂).1 c refl ((k id).pushed h₂ ∙ read.pushed h₁ ∙ fresh.pushed h)
            ((k id).asking h₂ ∙ read.asking h₁ ∙ fresh.asking h)
            λ success. omega (
              arith,
              (k id).honest h₂ result.1 (e₃ ∙ λ i. ok (success i, result.1)),
              read.calling h₁,
              fresh.calling h,
            )

  -- What handling did with an evaluated recommendation.
  abbrev pub Accounted : Recommendation → Outcome → History F → History F → Type 0
  Accounted rec (needs_human, r, a) h h' =
      (pushes h' ≡ pushes h)
      × (asked h' ≡ (if env.bus h then asked h + 1 else asked h))
      × (posts h' ≡ posts h)
  Accounted rec (denied, r, a) h h' = Recorded rec ⊥ h h'
  Accounted rec (approved, r, a) h h' = Recorded rec (posts h < posts h') h h'

  Recorded-weaken :
      (rec : Recommendation) (ran : Type 0) (h h' : History F)
      → Recorded rec ⊥ h h'
      → Recorded rec ran h h'
  Recorded-weaken rec ran h h' (a, g, p, l, q, i, s) = (a, g, p, l, q, i, λ t. absurd (s t))

  dispatch-Accounted :
      (rec : Recommendation) (o : Outcome) (h : History F)
      → env.has_client ≡ true
      → (dispatch env rec o h).0 ≡ ok tt
      → Accounted rec o h (dispatch env rec o h).1
  unfolding dispatch execute publish_needs_human try_publish ◌>>=◌ pushes asked posts Ends
  dispatch-Accounted rec (approved, r, a) h c done = elim (Option-cases (resolve env rec.kind)) [
    | inl e ↦
        rw (e, execute)
          (Recorded-weaken rec _ h (record_denied env rec (no_handler env rec) h).1
            (record_denied-Recorded rec (no_handler env rec) h c))
    | inr (handler, e) ↦
        rw (e, execute)
          (run_handler-Recorded rec handler h c (IsHandler-resolved rec handler e) tt
            (rw (e, execute) at done))
  ]
  dispatch-Accounted rec (denied, r, a) h c done = record_denied-Recorded rec _ h c
  dispatch-Accounted rec (needs_human, r, a) h c done = elim (Bool-cases (env.bus h)) [
    | inl takes ↦ simp takes (refl, omega arith, refl)
    | inr refuses ↦ simp refuses (refl, refl, refl)
  ]

module _ {F : Type 0} (env : Env F) (lang : RuleLanguage) (engine : PolicyEngine) where
  -- Let there be a Redis client, the engine evaluate a recommendation, and its handling return. If
  -- the outcome is NEEDS_HUMAN: one message for a human goes out exactly if the bus takes it, there
  -- is no record and no call. Otherwise one record under the recommendation's identifier is offered
  -- to `actions:recent` at the end, and is kept exactly if Redis takes it then; no other
  -- record is, and no such message goes out. The record reports a success only if the
  -- recommendation was approved and the service was called for it.
  pub handle_recommendation-Accounted :
      (rec : Recommendation) (o : Outcome) (h : History F)
      → env.has_client ≡ true
      → evaluate lang engine rec (env.utc_hour h) ≡ ok o
      → (handle_recommendation env lang engine rec h).0 ≡ ok tt
      → Accounted env rec o h (handle_recommendation env lang engine rec h).1
  unfolding handle_recommendation ◌>>=◌
  handle_recommendation-Accounted rec o h c e done =
      rw e (dispatch-Accounted env rec o h c (rw e at done))
