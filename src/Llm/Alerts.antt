-- ===== src/Llm/Alerts.antt =====
-- The guard `_budget_exceeded_emitted` of apps/agents/shared/llm_router.py: it is read before the
-- alert is published, and set after.
use dcops.Base.{
  ℕ, zero, suc, ◌+◌, ◌≤◌, ◌≡◌, refl, sym, subst, inl, inr, String, Bool, Bool-cases, true, false,
  not, ◌&&◌, Option, none, some, List, [], ◌∷◌, arith, str_eq, str_eq_refl, ltb,
}
use dcops.Llm.Router.{ModelTier, TaskClass, Invocation, Settings}
use dcops.Llm.Calls.{
  Event, alert, audited, Call, alerting, invoking, State, fresh_router, reset_if_new_day,
  over_budget, apply_budget_policy, requested_tier, begin, alert_ends, pick, Move, begins,
  published, answered, publish_call, answer_call, move, run,
}

-- The alerts sent.
unfoldable pub alerts_sent : List Event → ℕ
alerts_sent [] = 0
alerts_sent (alert b ∷ es) = suc (alerts_sent es)
alerts_sent (audited r ∷ es) = alerts_sent es

-- No call begins while another waits, and all begin on the day of the last reset.
abbrev pub OneByOne : Settings → List Move → State → Type 0
OneByOne c [] s = Unit
OneByOne c (begins task force today ∷ ms) s =
    (s.calls ≡ [])
    × (str_eq today s.last_reset_date ≡ true)
    × OneByOne c ms (move c (begins task force today) s)
OneByOne c (m ∷ ms) s = OneByOne c ms (move c m s)

-- At most one call waits, and it waits for an alert only while none was sent.
Lone : Bool → List Call → Type 0
Lone emitted [] = Unit
Lone emitted (alerting task b ∷ others) = (emitted ≡ false) × (others ≡ [])
Lone emitted (invoking task tier d ∷ others) = others ≡ []

LonePick : Bool → Option (Call × List Call) → Type 0
LonePick emitted none = Unit
LonePick emitted (some (x, xs)) = Lone emitted (x ∷ xs)

LonePick-nil :
    (emitted : Bool) (n : ℕ) (x : Call) (xs : List Call)
    → xs ≡ []
    → LonePick emitted (pick (suc n) (x ∷ xs))
unfolding LonePick pick
LonePick-nil emitted n x xs e = rw e tt

pick-LonePick :
    (emitted : Bool) (n : ℕ) (xs : List Call) → Lone emitted xs → LonePick emitted (pick n xs)
unfolding LonePick pick Lone
pick-LonePick emitted n [] l = tt
pick-LonePick emitted zero (x ∷ xs) l = l
pick-LonePick emitted (suc n) (alerting task b ∷ xs) (e, l) =
    LonePick-nil emitted n (alerting task b) xs l
pick-LonePick emitted (suc n) (invoking task tier d ∷ xs) l =
    LonePick-nil emitted n (invoking task tier d) xs l

record Guarded (s : State) : Type 0 where
  few : alerts_sent s.events ≤ 1
  armed : s.emitted ≡ false → alerts_sent s.events ≡ 0
  lone : Lone s.emitted s.calls

module _ (c : Settings) where
  Guarded-reset :
      (today : String) (s : State)
      → Guarded s
      → str_eq today s.last_reset_date ≡ true
      → Guarded (reset_if_new_day today s)
  unfolding reset_if_new_day
  Guarded-reset today s g same = simp same g

  Guarded-policy :
      (task : TaskClass) (tier : ModelTier) (s : State)
      → Guarded s
      → s.calls ≡ []
      → Guarded (apply_budget_policy c task tier s)
  unfolding apply_budget_policy Lone
  Guarded-policy task tier s g idle = elim (Bool-cases (over_budget c s)) [
    | inl over ↦ elim (Bool-cases (not s.emitted && c.has_bus)) [
      | inl alarm ↦
          simp (over, alarm)
            (record { few = g.few; armed = g.armed; lone = (ground (arith, alarm), idle) })
      | inr quiet ↦ simp (over, quiet) (record { few = g.few; armed = g.armed; lone = idle })
    ]
    | inr under ↦ simp under (record { few = g.few; armed = g.armed; lone = idle })
  ]

  reset-calls : (today : String) (s : State) → s.calls ≡ [] → (reset_if_new_day today s).calls ≡ []
  unfolding reset_if_new_day
  reset-calls today s idle = ground (arith, idle)

  Guarded-publish :
      (ok : Bool) (p : Option (Call × List Call)) (s : State)
      → LonePick s.emitted p
      → Guarded s
      → Guarded (publish_call ok p s)
  unfolding publish_call alerts_sent LonePick Lone
  Guarded-publish ok none s l g = g
  Guarded-publish ok (some (invoking task tier d, others)) s l g = g
  Guarded-publish true (some (alerting task b, others)) s (quiet, l) g = record {
    few = omega (arith, g.armed quiet);
    armed = λ e. absurd (ground (arith, e));
    lone = l;
  }
  Guarded-publish false (some (alerting task b, others)) s (quiet, l) g = record {
    few = g.few;
    armed = λ e. g.armed quiet;
    lone = l;
  }

  Guarded-answer :
      (i : Option Invocation) (p : Option (Call × List Call)) (s : State)
      → LonePick s.emitted p
      → Guarded s
      → Guarded (answer_call c i p s)
  unfolding answer_call alerts_sent LonePick Lone
  Guarded-answer none none s l g = g
  Guarded-answer (some i) none s l g = g
  Guarded-answer none (some (alerting task b, others)) s l g = g
  Guarded-answer (some i) (some (alerting task b, others)) s l g = g
  Guarded-answer none (some (invoking task tier d, others)) s l g = record {
    few = g.few;
    armed = g.armed;
    lone = subst (Lone s.emitted) (sym l) tt;
  }
  Guarded-answer (some i) (some (invoking task tier d, others)) s l g = record {
    few = g.few;
    armed = g.armed;
    lone = subst (Lone s.emitted) (sym l) tt;
  }

  Guarded-run : (ms : List Move) (s : State) → OneByOne c ms s → Guarded s → Guarded (run c ms s)
  unfolding run move begin
  Guarded-run [] s o g = g
  Guarded-run (begins task force today ∷ ms) s (idle, same, o) g =
      let s' = reset_if_new_day today s in
      Guarded-run ms _ o (
        Guarded-policy task (requested_tier c task force) s' (Guarded-reset today s g same)
          (reset-calls today s idle))
  Guarded-run (published n ok ∷ ms) s o g =
      Guarded-run ms _ o
        (Guarded-publish ok (pick n s.calls) s (pick-LonePick s.emitted n s.calls g.lone) g)
  Guarded-run (answered n i ∷ ms) s o g =
      Guarded-run ms _ o
        (Guarded-answer i (pick n s.calls) s (pick-LonePick s.emitted n s.calls g.lone) g)

  -- If no call begins while another waits, and all begin on the day of the router's start, at most
  -- one alert is sent.
  pub run-alerts :
      (today : String) (ms : List Move)
      → OneByOne c ms (fresh_router today)
      → alerts_sent (run c ms (fresh_router today)).events ≤ 1
  unfolding fresh_router alerts_sent Lone
  run-alerts today ms o =
      (Guarded-run ms (fresh_router today) o
        (record { few = omega arith; armed = λ e. refl; lone = tt })).few

  -- Two calls that begin together on a day whose budget is used up, before any alert, with a bus
  -- that works, send two alerts.
  pub run_twice :
      (first second : TaskClass) (force : Option ModelTier) (s : State)
      → str_eq c.backend "anthropic" ≡ true
      → c.daily_budget ≤ s.spent_today
      → c.has_bus ≡ true
      → s.emitted ≡ false
      → s.calls ≡ []
      → alerts_sent
          (run c
            (begins first force s.last_reset_date
              ∷ begins second force s.last_reset_date
              ∷ published 0 true
              ∷ published 1 true
              ∷ [])
            s).events
        ≡ alerts_sent s.events + 2
  unfolding run move begin reset_if_new_day apply_budget_policy over_budget publish_call alert_ends
      alerts_sent pick
  run_twice first second force s paid over bus quiet idle =
      let same : str_eq s.last_reset_date s.last_reset_date ≡ true =
        str_eq_refl s.last_reset_date in
      let spent : ltb s.spent_today c.daily_budget ≡ false = ground (arith, over) in
      simp (same, paid, spent, bus, quiet, idle) (omega arith)
