-- ===== src/Optimizer/Handover.antt =====
-- From the optimizer (apps/agents/optimizer/main.py) to the executor (apps/agents/executor).
use Prim.Native.Nat.{Ordering}
use Prim.Native.String.{compare}
use mathlib.Core.Option.{some-ne-none}
use dcops.Base.{
  ℕ, zero, suc, ◌≤◌, ◌<◌, ◌≡◌, ◌≢◌, refl, String, true, false, not, ◌||◌, Option, none, some, List,
  [], ◌∷◌, All, take, length, length-take, if_both, arith,
}
use dcops.Base.Result.{Result, ok, err}
use dcops.Events.{Recommendation}
use dcops.Policy.Rules.{RuleLanguage}
use dcops.Policy.Engine.{PolicyEngine}
use dcops.Executor.Effects.{Env, History}
use dcops.Executor.Actions.{resolve}
use dcops.Executor.Agent.{handle_recommendation}
use dcops.Executor.Gate.{posts, GatePassed, handle_recommendation-GatePassed}
use dcops.Optimizer.Solver.{SolverInput, SolverOutput, PlannedMove, CpSolver, none_of, solve}
use dcops.Optimizer.Names.{rack_for, without_wl}
use dcops.Optimizer.Context.{Floats, Surroundings, gather_context}
use dcops.Optimizer.Agent.{
  IncidentReport, State, target_devices, add_sorted, build_recommendation, trim, pushed,
  publish_and_persist, recommend, handle_rack, handle_context, handle_devices, handle, kept, serve,
  fresh_state,
}

module _ {F G : Type 0} (floats : Floats F) (around : Surroundings F) where
  -- Let a plan have more than three moves. Whatever the policies of the engine are, the executor
  -- never calls its HTTP service for the recommendation that the optimizer builds of the plan.
  pub build_recommendation-posts :
      (event : IncidentReport) (output : SolverOutput F) (env : Env G) (lang : RuleLanguage)
      (engine : PolicyEngine) (h : History G)
      → 3 < length output.moves
      → ¬ posts h
        < posts
            (handle_recommendation env lang engine
              (build_recommendation floats around event output)
              h).1
  unfolding build_recommendation
  build_recommendation-posts event output env lang engine h many called =
      let rec = build_recommendation floats around event output in
      let passed : GatePassed env lang engine rec h _ =
        handle_recommendation-GatePassed env lang engine rec h called in
      ground (arith, many, passed.0.2)

module _ {F : Type 0} (keep : ℕ) (around : Surroundings F) where
  -- Redis cuts the list to a length that is not 0.
  pub record Trims : Type 0 where
    pub ltrim_ok : around.ltrim_ok ≡ true
    pub recent_keep : around.recent_keep ≡ keep
    pub positive : 0 < keep

abbrev pub AllTrim : {F : Type 0} → ℕ → List (Surroundings F × IncidentReport) → Type 0
AllTrim keep [] = Unit
AllTrim keep ((around, event) ∷ events) = Trims keep around × AllTrim keep events

-- A recommendation for which the executor with the surroundings `env` has a handler, about some
-- device.
abbrev pub Executable : {G : Type 0} → Env G → Recommendation → Type 0
Executable env rec = (resolve env rec.kind ≢ none) × (none_of rec.target_device_ids ≡ false)

module _ {G : Type 0} (env : Env G) where
  -- What is published, and the list in Redis.
  record Kept (keep : ℕ) (s : State) : Type 0 where
    published : All (Executable env) s.published
    recent : All (Executable env) s.recent
    bounded : length s.recent ≤ keep

  take-All :
      (n : ℕ) (rs : List Recommendation)
      → All (Executable env) rs
      → All (Executable env) (take n rs)
  take-All zero rs h = tt
  take-All (suc n) [] h = tt
  take-All (suc n) (r ∷ rs) (h, hs) = (h, take-All n rs hs)

  trim-Kept :
      (n : ℕ) (rs : List Recommendation)
      → 0 < n
      → All (Executable env) rs
      → All (Executable env) (trim n rs) × (length (trim n rs) ≤ n)
  unfolding trim
  trim-Kept zero rs p h = absurd (omega (arith, p))
  trim-Kept (suc n) rs p h = (take-All (suc n) rs h, omega (arith, length-take (suc n) rs))

  add_sorted-none_of : (d : String) (ds : List String) → none_of (add_sorted d ds) ≡ false
  unfolding add_sorted
  add_sorted-none_of d [] = refl
  add_sorted-none_of d (e ∷ es) =
      elim (compare d e)
        as (λ o.
          none_of (elim o [
            | Ordering.lt ↦ d ∷ e ∷ es
            | Ordering.eq ↦ e ∷ es
            | Ordering.gt ↦ e ∷ add_sorted d es
          ])
          ≡ false) [ Ordering.lt ↦ refl | Ordering.eq ↦ refl | Ordering.gt ↦ refl ]

  module _ {F : Type 0} where
    targets-none_of :
        (ms : List (PlannedMove F)) → none_of ms ≡ false → none_of (target_devices ms) ≡ false
    unfolding target_devices
    targets-none_of [] h = h
    targets-none_of (m ∷ ms) h = add_sorted-none_of (without_wl m.workload_id) (target_devices ms)

    module _ (keep : ℕ) (around : Surroundings F) where
      pushed-Kept :
          Trims keep around
          → (rec : Recommendation) (s : State) → All (Executable env) (rec ∷ s.recent)
          → Kept keep s
          → All (Executable env) (pushed around rec s.recent)
            × (length (pushed around rec s.recent) ≤ keep)
      pushed-Kept t rec s longer k =
          if_both (λ rs. All (Executable env) rs × (length rs ≤ keep))
            (not around.has_client || not around.lpush_ok) (λ off. (k.recent, k.bounded))
            (λ on.
              simp (t.ltrim_ok, t.recent_keep) (trim-Kept keep (rec ∷ s.recent) t.positive longer))

      publish_and_persist-Kept :
          Trims keep around
          → (rec : Recommendation) (s : State) → Executable env rec
          → Kept keep s
          → Kept keep (publish_and_persist around rec s)
      unfolding publish_and_persist
      publish_and_persist-Kept t rec s e k =
          let longer : All (Executable env) (rec ∷ s.recent) = (e, k.recent) in
          record {
            published =
                if_both (All (Executable env)) around.publish_ok (λ done. (e, k.published))
                  (λ failed. k.published);
            recent = (pushed-Kept t rec s longer k).0;
            bounded = (pushed-Kept t rec s longer k).1;
          }

    module _ (floats : Floats F) (keep : ℕ) (around : Surroundings F) where
      recommended :
          (event : IncidentReport) (output : SolverOutput F)
          → none_of output.moves ≡ false
          → Executable env (build_recommendation floats around event output)
      unfolding build_recommendation resolve
      recommended event output some_move = (some-ne-none _, targets-none_of output.moves some_move)

      recommend-Kept :
          Trims keep around
          → (event : IncidentReport) (output : SolverOutput F) (s : State) → Kept keep s
          → Kept keep (recommend floats around event output s)
      unfolding recommend
      recommend-Kept t event output s k =
          if_both (Kept keep) (not output.is_feasible || none_of output.moves) (λ idle. k)
            (λ busy.
              publish_and_persist-Kept keep around t
                (build_recommendation floats around event output) s
                (recommended event output (ground (arith, busy))) k)

      module _ (t : Trims keep around) (cp : CpSolver) (event : IncidentReport) (s : State)
          (k : Kept keep s) where
        context-Kept :
            (ctx : Result (Option (SolverInput F)))
            → Kept keep (kept s (handle_context floats around cp event s ctx))
        unfolding kept handle_context
        context-Kept (err e) = k
        context-Kept (ok none) = k
        context-Kept (ok (some inp)) = recommend-Kept t event (solve floats.ops cp inp) s k

        handle_rack-Kept :
            (rack_id : Option String)
            → Kept keep (kept s (handle_rack floats around cp event rack_id s))
        unfolding kept handle_rack
        handle_rack-Kept none = k
        handle_rack-Kept (some rack_id) =
            context-Kept (gather_context floats around event.site_id rack_id)

        handle-Kept :
            (devices : List String)
            → Kept keep (kept s (handle_devices floats around cp event devices s))
        unfolding kept handle_devices
        handle-Kept [] = k
        handle-Kept (d ∷ ds) = handle_rack-Kept (rack_for d)

  serve-Kept :
      {F : Type 0} (floats : Floats F) (cp : CpSolver) (keep : ℕ)
      (events : List (Surroundings F × IncidentReport)) (s : State)
      → AllTrim keep events
      → Kept keep s
      → Kept keep (serve floats cp events s)
  unfolding serve handle
  serve-Kept floats cp keep [] s t k = k
  serve-Kept floats cp keep ((around, event) ∷ events) s (t, ts) k =
      serve-Kept floats cp keep events _ ts
        (handle-Kept floats keep around t cp event s k event.affected_device_ids)

  -- Let Redis cut the list to the length `keep`, which is not 0, whenever it is pushed to. Whatever
  -- incidents the optimizer serves from its start on: every recommendation that is published, and
  -- every one in the list, is about some device and of a kind that the executor has a handler for,
  -- and the list never has more than `keep` entries.
  pub serve-Executable :
      {F : Type 0} (floats : Floats F) (cp : CpSolver) (keep : ℕ)
      (events : List (Surroundings F × IncidentReport))
      → AllTrim keep events
      → let s = serve floats cp events fresh_state in
        All (Executable env) s.published × All (Executable env) s.recent × (length s.recent ≤ keep)
  serve-Executable floats cp keep events t =
      let k =
        serve-Kept floats cp keep events fresh_state t
          (record { published = tt; recent = tt; bounded = omega arith }) in
      (k.published, k.recent, k.bounded)
