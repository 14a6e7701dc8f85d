-- ===== src/Executor/Freeze.antt =====
-- A change freeze stops the executor: `PolicyEngine` and `ExecutorAgent` together.
use mathlib.Core.List.{Memᴰ}
use native.Mathlib.Decide.{dec_lt}
use dcops.Base.{ℕ, ◌≤◌, ◌≡◌, refl, inl, inr, Option-cases, true, false, some, List, [], ◌∷◌, arith}
use dcops.Base.Result.{ok}
use dcops.Value.{Value, truthy}
use dcops.Events.{Recommendation}
use dcops.Policy.Rules.{
  Policy, RuleLanguage, denied, in_freeze, parameter, eval_change_freeze, eval_one,
}
use dcops.Policy.Engine.{PolicyEngine, is_denied}
use dcops.Policy.Precedence.{Fires}
use dcops.Executor.Effects.{Env, History, pure}
use dcops.Executor.Agent.{Incoming, parse, handle_recommendation, handle, serve}
use dcops.Executor.Gate.{posts, handle_recommendation-GatePassed}

-- A change-freeze policy for all sites that is switched on.
pub record IsFreeze (p : Policy) : Type 0 where
  pub kind : p.kind ≡ Value.str "change_freeze"
  pub sites : p.applies_to_sites ≡ []
  pub enabled : Value
  pub read : parameter "enabled" (Value.bool false) p ≡ ok enabled
  pub on : truthy enabled ≡ true

module _ (lang : RuleLanguage) (rec : Recommendation) where
  eval_one-freeze :
      (p : Policy) (now : ℕ) → IsFreeze p → eval_one lang p rec now ≡ ok (denied, some in_freeze)
  unfolding eval_one eval_change_freeze
  eval_one-freeze p now f = rw (f.kind, eval_one) (ground (arith, f.read, f.on))

  Fires-freeze :
      (p : Policy) (ps : List Policy) (now : ℕ)
      → IsFreeze p
      → Memᴰ p ps
      → Fires lang rec now is_denied ps
  Fires-freeze p ps now f m =
      (p, (denied, some in_freeze), m, rw f.sites refl, eval_one-freeze p now f, refl)

module _ {F : Type 0} (env : Env F) (lang : RuleLanguage) (engine : PolicyEngine) (p : Policy) where
  handle-freeze :
      IsFreeze p
      → Memᴰ p engine.policies
      → (event : Incoming) (h : History F) → posts (handle env lang engine event h).1 ≤ posts h
  unfolding handle pure
  handle-freeze f m event h = elim (Option-cases (parse env event)) [
    | inl e ↦ rw (e, handle) (omega arith)
    | inr (rec, e) ↦
        rw (e, handle)
          (elim (dec_lt (posts h) (posts (handle_recommendation env lang engine rec h).1)) [
            | yes called ↦ absurd (
                (handle_recommendation-GatePassed env lang engine rec h called).0.0
                  (Fires-freeze lang rec p engine.policies (env.utc_hour h) f m))
            | no quiet ↦ omega arith
          ])
  ]

  -- While an enabled change-freeze policy for all sites is loaded, wherever it stands among the
  -- policies, no sequence of events from the bus, well formed or not, makes the executor call the
  -- service.
  pub serve-freeze :
      IsFreeze p
      → Memᴰ p engine.policies
      → (events : List Incoming) (h : History F) → posts (serve env lang engine events h) ≤ posts h
  unfolding serve
  serve-freeze f m [] h = omega arith
  serve-freeze f m (e ∷ es) h =
      omega (arith, handle-freeze f m e h, serve-freeze f m es (handle env lang engine e h).1)
