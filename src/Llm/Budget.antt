-- ===== src/Llm/Budget.antt =====
-- A day whose budget is used up: apps/agents/shared/llm_router.py.
use dcops.Base.{
  ℕ, zero, suc, ◌≤◌, ◌≡◌, refl, sym, ap, subst, ◌∙◌, inl, inr, String, Bool, Bool-cases, true,
  false, not, ◌&&◌, Option, none, some, List, [], ◌∷◌, ◌++◌, All, All-append, append_assoc, arith,
  str_eq, eq_iff,
}
use dcops.Llm.Router.{ModelTier, haiku, TaskClass, Invocation, Settings, to_result, to_record}
use dcops.Llm.Calls.{
  Event, alert, audited, Call, alerting, invoking, State, over_budget, begin, pick, Move, begins,
  published, answered, publish_call, answer_call, move, run,
}

-- A call that will go to the fast tier and be marked as downgraded.
abbrev pub Downgraded : Call → Type 0
Downgraded (alerting task b) = Unit
Downgraded (invoking task tier d) = (tier ≡ haiku) × (d ≡ true)

-- A record of such a call.
abbrev pub Fast : Event → Type 0
Fast (alert b) = Unit
Fast (audited r) = (r.tier_used ≡ haiku) × (r.downgraded ≡ true)

-- The events that were added on top.
abbrev pub Adds : (Event → Type 0) → List Event → List Event → Type 0
Adds P old new = (added : List Event) × (new ≡ added ++ old) × All P added

-- All calls of the moves begin on the day.
abbrev pub OnDay : String → List Move → Type 0
OnDay day [] = Unit
OnDay day (begins task force today ∷ ms) = (today ≡ day) × OnDay day ms
OnDay day (m ∷ ms) = OnDay day ms

Adds-trans : (P : Event → Type 0) (a b c : List Event) → Adds P a b → Adds P b c → Adds P a c
Adds-trans P a b c (xs, e, h) (ys, e', h') = (
  ys ++ xs,
  e' ∙ ap (λ (r : List Event). ys ++ r) e ∙ sym (append_assoc ys xs a),
  All-append P ys xs h' h,
)

Picked : Option (Call × List Call) → Type 0
Picked none = Unit
Picked (some (x, xs)) = Downgraded x × All Downgraded xs

pick-Picked : (n : ℕ) (xs : List Call) → All Downgraded xs → Picked (pick n xs)
unfolding pick Picked
pick-Picked n [] h = tt
pick-Picked zero (x ∷ xs) h = h
pick-Picked (suc n) (x ∷ xs) (h, hs) = go (pick n xs) (pick-Picked n xs hs)
  where
    go :
        (p : Option (Call × List Call))
        → Picked p
        → Picked (elim p [ none ↦ none | some (y, ys) ↦ some (y, x ∷ ys) ])
    go none k = tt
    go (some (y, ys)) (k, ks) = (k, (h, ks))

module _ (c : Settings) (day : String) where
  record UsedUp (s : State) : Type 0 where
    paid : str_eq c.backend "anthropic" ≡ true
    over : c.daily_budget ≤ s.spent_today
    today : s.last_reset_date ≡ day
    waiting : All Downgraded s.calls

  -- What one move does on such a day.
  Held : State → State → Type 0
  Held s s' = UsedUp s' × Adds Fast s.events s'.events

  over_budget-UsedUp : (s : State) → UsedUp s → over_budget c s ≡ true
  unfolding over_budget
  over_budget-UsedUp s u = ground (arith, u.paid, u.over)

  Held-begin :
      (task : TaskClass) (force : Option ModelTier) (s : State)
      → UsedUp s
      → Held s (begin c task force day s)
  unfolding begin Held
  Held-begin task force s u =
      let here : str_eq day s.last_reset_date ≡ true =
        (eq_iff day s.last_reset_date).1 (sym u.today) in
      let over : over_budget c s ≡ true = over_budget-UsedUp s u in
      elim (Bool-cases (not s.emitted && c.has_bus)) [
        | inl alarm ↦
            simp (here, over, alarm)
              (
                record { paid = u.paid; over = u.over; today = u.today; waiting = (tt, u.waiting) },
                ([], refl, tt),
              )
        | inr quiet ↦
            simp (here, over, quiet)
              (
                record {
                  paid = u.paid;
                  over = u.over;
                  today = u.today;
                  waiting = ((refl, refl), u.waiting);
                },
                ([], refl, tt),
              )
      ]

  Held-publish :
      (ok : Bool) (p : Option (Call × List Call)) (s : State)
      → Picked p
      → UsedUp s
      → Held s (publish_call ok p s)
  unfolding publish_call Picked Held
  Held-publish ok none s k u = (u, ([], refl, tt))
  Held-publish ok (some (invoking task tier d, others)) s k u = (u, ([], refl, tt))
  Held-publish true (some (alerting task b, others)) s (k, ks) u = (
    record { paid = u.paid; over = u.over; today = u.today; waiting = ((refl, refl), ks) },
    (alert b ∷ [], refl, (tt, tt)),
  )
  Held-publish false (some (alerting task b, others)) s (k, ks) u = (
    record { paid = u.paid; over = u.over; today = u.today; waiting = ((refl, refl), ks) },
    ([], refl, tt),
  )

  Held-answer :
      (i : Option Invocation) (p : Option (Call × List Call)) (s : State)
      → Picked p
      → UsedUp s
      → Held s (answer_call c i p s)
  unfolding answer_call Picked Held
  Held-answer none none s k u = (u, ([], refl, tt))
  Held-answer (some i) none s k u = (u, ([], refl, tt))
  Held-answer none (some (alerting task b, others)) s k u = (u, ([], refl, tt))
  Held-answer (some i) (some (alerting task b, others)) s k u = (u, ([], refl, tt))
  Held-answer none (some (invoking task tier d, others)) s (k, ks) u =
      (record { paid = u.paid; over = u.over; today = u.today; waiting = ks }, ([], refl, tt))
  Held-answer (some i) (some (invoking task tier d, others)) s (k, ks) u = (
    record { paid = u.paid; over = omega (arith, u.over); today = u.today; waiting = ks },
    (audited (to_record c task (to_result c tier i) d) ∷ [], refl, (k, tt)),
  )

  Held-run :
      (ms : List Move) (s : State)
      → OnDay day ms
      → UsedUp s
      → Adds Fast s.events (run c ms s).events
  unfolding run move Held
  Held-run [] s o u = ([], refl, tt)
  Held-run (begins task force today ∷ ms) s (e, o) u = rw e (
      let h = Held-begin task force s u in
      Adds-trans Fast s.events (begin c task force day s).events _ h.1
        (Held-run ms (begin c task force day s) o h.0))
  Held-run (published n ok ∷ ms) s o u =
      let p = pick n s.calls in
      let h = Held-publish ok p s (pick-Picked n s.calls u.waiting) u in
      Adds-trans Fast s.events (publish_call ok p s).events _ h.1
        (Held-run ms (publish_call ok p s) o h.0)
  Held-run (answered n i ∷ ms) s o u =
      let p = pick n s.calls in
      let h = Held-answer i p s (pick-Picked n s.calls u.waiting) u in
      Adds-trans Fast s.events (answer_call c i p s).events _ h.1
        (Held-run ms (answer_call c i p s) o h.0)

  -- Let a router for the paid back end have spent its budget or more on a day, with no call
  -- waiting. Whatever calls begin on that day, with whatever tier forced, and however they overlap:
  -- every record that they add is of the fast tier and marked as downgraded.
  pub run-Fast :
      (ms : List Move) (s : State)
      → str_eq c.backend "anthropic" ≡ true
      → c.daily_budget ≤ s.spent_today
      → s.last_reset_date ≡ day
      → s.calls ≡ []
      → OnDay day ms
      → Adds Fast s.events (run c ms s).events
  run-Fast ms s paid over today idle o = Held-run ms s o (record {
    paid = paid;
    over = over;
    today = today;
    waiting = subst (All Downgraded) (sym idle) tt;
  })
