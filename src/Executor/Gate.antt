-- ===== src/Executor/Gate.antt =====
-- No action without approval: the HTTP service is called only for what the policy engine approves.
use mathlib.Core.Option.{some-injective, none-ne-some}
use dcops.Base.{
  subst, ℕ, ◌+◌, ◌≤◌, ◌<◌, suc, ◌≡◌, ◌≢◌, refl, inl, inr, Bool-cases, Option-cases, String, Bool,
  true, false, none, some, List, [], ◌∷◌, arith, str_eq, if◌then◌else◌,
}
use dcops.Base.Result.{Result, ok, err}
use dcops.Value.{Dict}
use dcops.Events.{Recommendation, ActionExecuted}
use dcops.Policy.Rules.{Decision, approved, denied, needs_human, RuleLanguage}
use dcops.Policy.Engine.{PolicyEngine, Outcome, evaluate}
use dcops.Policy.Precedence.{Justified, evaluate-Justified}
use dcops.Executor.Effects.{
  Env, Action, History, post, Message, select, continue, pure, lift, gets, ◌>>=◌,
}
use dcops.Executor.Actions.{
  ActionResult, resolve, post_action, handle_workload_migration, handle_fan_speed, fan_speed_of,
}
use dcops.Executor.Agent.{
  fresh_uuid, kpi_metrics_for, persist_action, try_publish, snapshot_kpis, snapshot_metrics,
  record_denied, publish_needs_human, run_handler, execute, dispatch, handle_recommendation,
}

module _ {F : Type 0} where
  -- The calls of the HTTP service in a history.
  unfoldable pub posts : History F → ℕ
  posts [] = 0
  posts (post base path payload ∷ h) = suc (posts h)
  posts (_ ∷ h) = posts h

  -- An action that calls the service `n` times at most, whether it returns or raises.
  pub record AtMost {A : Type 0} (n : ℕ) (m : Action F A) : Type 0 where
    pub at : (h : History F) → posts (m h).1 ≤ posts h + n

module _ {F A : Type 0} where
  AtMost-pure : (a : A) → AtMost {F = F} 0 (pure a)
  unfolding pure
  AtMost-pure a = record { at = λ h. omega arith }

  AtMost-lift : (r : Result A) → AtMost {F = F} 0 (lift r)
  unfolding lift
  AtMost-lift r = record { at = λ h. omega arith }

  AtMost-gets : (f : History F → A) → AtMost 0 (gets f)
  unfolding gets
  AtMost-gets f = record { at = λ h. omega arith }

  AtMost-if :
      (b : Bool) (n : ℕ) (m k : Action F A)
      → AtMost n m
      → AtMost n k
      → AtMost n (if b then m else k)
  AtMost-if true n m k hm hk = hm
  AtMost-if false n m k hm hk = hk

module _ {F A B : Type 0} where
  AtMost-continue :
      (r : Result A) (f : A → Action F B) (n : ℕ)
      → ((a : A) → AtMost n (f a))
      → (h : History F) → posts (continue r f h).1 ≤ posts h + n
  AtMost-continue (ok a) f n k h = (k a).at h
  AtMost-continue (err e) f n k h = omega arith

  -- A step that calls nothing, and the rest.
  AtMost-quiet :
      (m : Action F A) (f : A → Action F B) (n : ℕ)
      → AtMost 0 m
      → ((a : A) → AtMost n (f a))
      → AtMost n (m >>= f)
  unfolding ◌>>=◌
  AtMost-quiet m f n q k = record {
    at = λ h. omega (arith, q.at h, AtMost-continue (m h).0 f n k (m h).1);
  }

  -- A step that may call, and a rest that calls nothing.
  AtMost-last :
      (m : Action F A) (f : A → Action F B) (n : ℕ)
      → AtMost n m
      → ((a : A) → AtMost 0 (f a))
      → AtMost n (m >>= f)
  unfolding ◌>>=◌
  AtMost-last m f n q k = record {
    at = λ h. omega (arith, q.at h, AtMost-continue (m h).0 f 0 k (m h).1);
  }

ruleset steps = (AtMost-pure, AtMost-lift, AtMost-gets, AtMost-if, AtMost-quiet)

module _ {F : Type 0} (env : Env F) where
  AtMost-fresh_uuid : AtMost 0 (fresh_uuid env)
  unfolding fresh_uuid posts ◌>>=◌
  AtMost-fresh_uuid = record { at = λ h. omega arith }

  posts-snapshot_metrics :
      (rec : Recommendation) (ms : List String) (h : History F)
      → posts (snapshot_metrics env rec ms h).1 ≡ posts h
  unfolding posts snapshot_metrics ◌>>=◌
  posts-snapshot_metrics rec [] h = refl
  posts-snapshot_metrics rec (m ∷ ms) h =
      ground (arith, posts-snapshot_metrics rec ms (select rec.site_id m rec.target_device_ids ∷ h))

  AtMost-snapshot_kpis : (rec : Recommendation) → AtMost 0 (snapshot_kpis env rec)
  unfolding snapshot_kpis posts pure
  AtMost-snapshot_kpis rec = record {
    at = λ h. ground (arith, posts-snapshot_metrics rec (kpi_metrics_for rec.kind) h);
  }

  AtMost-persist_action : (a : ActionExecuted F) → AtMost 0 (persist_action env a)
  unfolding posts persist_action ◌>>=◌
  AtMost-persist_action a = record { at = λ h. ground arith }

  AtMost-record_denied :
      (rec : Recommendation) (reason : String) → AtMost 0 (record_denied env rec reason)
  unfolding record_denied
  AtMost-record_denied rec reason = search (steps, AtMost-fresh_uuid, AtMost-persist_action)

  AtMost-try_publish : (topic : String) (m : Message F) → AtMost 0 (try_publish env topic m)
  unfolding posts try_publish ◌>>=◌
  AtMost-try_publish topic m = record { at = λ h. ground arith }

  AtMost-publish_needs_human :
      (rec : Recommendation) (reason : String) → AtMost 0 (publish_needs_human env rec reason)
  unfolding publish_needs_human
  AtMost-publish_needs_human rec reason = AtMost-try_publish _ _

  AtMost-post_action : (path : String) (payload : Dict) → AtMost 1 (post_action env path payload)
  unfolding posts post_action ◌>>=◌
  AtMost-post_action path payload = record { at = λ h. ground arith }

  AtMost-handle_workload_migration :
      (rec : Recommendation) (id : ℕ) → AtMost 1 (handle_workload_migration env rec id)
  unfolding handle_workload_migration
  AtMost-handle_workload_migration rec id = AtMost-post_action _ _

  AtMost-fan_speed_of :
      (rec : Recommendation) (id : ℕ) (devices : List String)
      → AtMost 1 (fan_speed_of env rec id devices)
  unfolding pure
  AtMost-fan_speed_of rec id [] = record { at = λ h. omega arith }
  AtMost-fan_speed_of rec id (d ∷ ds) = search (steps, AtMost-post_action)

  AtMost-handle_fan_speed : (rec : Recommendation) (id : ℕ) → AtMost 1 (handle_fan_speed env rec id)
  unfolding handle_fan_speed
  AtMost-handle_fan_speed rec id = AtMost-fan_speed_of rec id rec.target_device_ids

  AtMost-handler :
      (rec : Recommendation) (handler : Recommendation → ℕ → Action F ActionResult)
      → resolve env rec.kind ≡ some handler
      → (id : ℕ) → AtMost 1 (handler rec id)
  unfolding resolve
  AtMost-handler rec handler e id = elim (Bool-cases (str_eq rec.kind "workload_migration")) [
    | inl m ↦
        subst (λ (k : Recommendation → ℕ → Action F ActionResult). AtMost 1 (k rec id))
          (some-injective _ _ (rw (m, resolve) at e)) (AtMost-handle_workload_migration rec id)
    | inr m ↦ elim (Bool-cases (str_eq rec.kind "fan_speed_adjust")) [
      | inl f ↦
          subst (λ (k : Recommendation → ℕ → Action F ActionResult). AtMost 1 (k rec id))
            (some-injective _ _ (rw (m, resolve, f) at e)) (AtMost-handle_fan_speed rec id)
      | inr f ↦ absurd (none-ne-some _ (rw (m, resolve, f) at e))
    ]
  ]

  AtMost-run_handler :
      (rec : Recommendation) (handler : Recommendation → ℕ → Action F ActionResult)
      → ((id : ℕ) → AtMost 1 (handler rec id))
      → AtMost 1 (run_handler env rec handler)
  unfolding run_handler
  AtMost-run_handler rec handler k = AtMost-quiet _ _ 1 AtMost-fresh_uuid λ id.
      AtMost-quiet _ _ 1 (AtMost-snapshot_kpis rec) λ kpis. AtMost-last _ _ 1 (k id) λ result.
        AtMost-quiet _ _ 0 (AtMost-lift _) λ payload.
          AtMost-quiet _ _ 0 AtMost-fresh_uuid
            λ event_id. AtMost-quiet _ _ 0 (AtMost-try_publish _ _) λ _. AtMost-persist_action _

  -- What `handle` may do with a decision: only an approval of a kind that has a handler calls the
  -- service, and once at most.
  abbrev allowed_posts : Recommendation → Decision → ℕ
  allowed_posts rec approved = elim (resolve env rec.kind) [ none ↦ 0 | some handler ↦ 1 ]
  allowed_posts rec denied = 0
  allowed_posts rec needs_human = 0

  AtMost-dispatch :
      (rec : Recommendation) (o : Outcome) → AtMost (allowed_posts rec o.0) (dispatch env rec o)
  unfolding dispatch execute
  AtMost-dispatch rec (approved, r, a) = elim (Option-cases (resolve env rec.kind)) [
    | inl e ↦ rw (e, execute, allowed_posts) (AtMost-record_denied rec _)
    | inr (handler, e) ↦
        rw (e, execute, allowed_posts)
          (AtMost-run_handler rec handler (AtMost-handler rec handler e))
  ]
  AtMost-dispatch rec (denied, r, a) = AtMost-record_denied rec _
  AtMost-dispatch rec (needs_human, r, a) = AtMost-publish_needs_human rec _

module _ {F : Type 0} (env : Env F) (lang : RuleLanguage) (engine : PolicyEngine) where
  -- What a call of the service tells about the recommendation that was handled.
  abbrev pub GatePassed : Recommendation → History F → History F → Type 0
  GatePassed rec h h' =
      Justified lang rec (env.utc_hour h) engine.policies approved
      × (resolve env rec.kind ≢ none)
      × (posts h' ≡ posts h + 1)

  gate_of_result :
      (rec : Recommendation) (h : History F) (r : Result Outcome)
      → evaluate lang engine rec (env.utc_hour h) ≡ r
      → posts h < posts (continue r (dispatch env rec) h).1
      → GatePassed rec h (continue r (dispatch env rec) h).1
  gate_of_result rec h (err e) he called = absurd (omega arith)
  gate_of_result rec h (ok (approved, r, a)) he called =
      let bound = (AtMost-dispatch env rec (approved, r, a)).at h in
      (
        evaluate-Justified lang rec (env.utc_hour h) engine (approved, r, a) he,
        λ missing. absurd (omega (arith, rw (missing, allowed_posts) at bound)),
        ground (arith, bound),
      )
  gate_of_result rec h (ok (denied, r, a)) he called =
      absurd (omega (arith, (AtMost-dispatch env rec (denied, r, a)).at h))
  gate_of_result rec h (ok (needs_human, r, a)) he called =
      absurd (omega (arith, (AtMost-dispatch env rec (needs_human, r, a)).at h))

  -- A call of the service while a recommendation is handled means that the engine evaluated it and
  -- approved it: no policy that applies denies it or asks for review, it carries no flag of its
  -- own, its kind has a handler, and the call is the only one.
  pub handle_recommendation-GatePassed :
      (rec : Recommendation) (h : History F)
      → posts h < posts (handle_recommendation env lang engine rec h).1
      → GatePassed rec h (handle_recommendation env lang engine rec h).1
  unfolding handle_recommendation ◌>>=◌
  handle_recommendation-GatePassed rec h called =
      gate_of_result rec h (evaluate lang engine rec (env.utc_hour h)) refl called
