-- ===== src/Llm/Spending.antt =====
-- What `_spent_today_usd` counts, and what it holds back: apps/agents/shared/llm_router.py.
use dcops.Base.{
  ℕ, ◌+◌, ◌≡◌, refl, sym, ap, subst, ◌∙◌, inl, inr, Bool-cases, String, Bool, true, false, Option,
  none, some, List, [], ◌∷◌, ◌++◌, All, arith, str_eq, eq_iff,
}
use dcops.Llm.Router.{ModelTier, TaskClass, Invocation, Settings}
use dcops.Llm.Calls.{
  Event, alert, audited, Call, alerting, invoking, State, fresh_router, reset_if_new_day,
  apply_budget_policy, requested_tier, begin, pick, Move, begins, published, answered, publish_call,
  answer_call, move, run,
}

-- The costs of all records.
unfoldable pub total_cost : List Event → ℕ
total_cost [] = 0
total_cost (alert b ∷ es) = total_cost es
total_cost (audited r ∷ es) = r.usd_cost + total_cost es

-- The day on which the latest call began, or that of the router's start.
abbrev pub last_day : String → List Move → String
last_day day [] = day
last_day day (begins task force today ∷ ms) = last_day today ms
last_day day (published n ok ∷ ms) = last_day day ms
last_day day (answered n i ∷ ms) = last_day day ms

-- A move that is no begin of a call on another day.
abbrev pub IsOn : String → Move → Type 0
IsOn day (begins task force today) = today ≡ day
IsOn day (published n ok) = Unit
IsOn day (answered n i) = Unit

module _ (c : Settings) where
  run-append :
      (older newer : List Move) (s : State) → run c (older ++ newer) s ≡ run c newer (run c older s)
  unfolding run
  run-append [] newer s = refl
  run-append (m ∷ older) newer s = run-append older newer (move c m s)

  policy-kept :
      (task : TaskClass) (tier : ModelTier) (s : State)
      → let t = apply_budget_policy c task tier s in
        (t.last_reset_date ≡ s.last_reset_date)
        × (t.spent_today ≡ s.spent_today)
        × (total_cost t.events ≡ total_cost s.events)
  unfolding apply_budget_policy
  policy-kept task tier s = ground arith

  publish-kept :
      (ok : Bool) (p : Option (Call × List Call)) (s : State)
      → let t = publish_call ok p s in
        (t.last_reset_date ≡ s.last_reset_date)
        × (t.spent_today ≡ s.spent_today)
        × (total_cost t.events ≡ total_cost s.events)
  unfolding publish_call total_cost
  publish-kept ok none s = (refl, refl, refl)
  publish-kept true (some (alerting task b, others)) s = (refl, refl, refl)
  publish-kept false (some (alerting task b, others)) s = (refl, refl, refl)
  publish-kept ok (some (invoking task tier d, others)) s = (refl, refl, refl)

  -- The end of a call adds the same cost to the spending and to the records.
  answer-paid :
      (i : Option Invocation) (p : Option (Call × List Call)) (s : State)
      → let t = answer_call c i p s in
        (t.last_reset_date ≡ s.last_reset_date)
        × (t.spent_today + total_cost s.events ≡ s.spent_today + total_cost t.events)
  unfolding answer_call total_cost
  answer-paid none none s = (refl, refl)
  answer-paid (some i) none s = (refl, refl)
  answer-paid none (some (alerting task b, others)) s = (refl, refl)
  answer-paid (some i) (some (alerting task b, others)) s = (refl, refl)
  answer-paid none (some (invoking task tier d, others)) s = (refl, refl)
  answer-paid (some i) (some (invoking task tier d, others)) s = (refl, omega arith)

  reset-date : (today : String) (s : State) → (reset_if_new_day today s).last_reset_date ≡ today
  unfolding reset_if_new_day
  reset-date today s = elim (Bool-cases (str_eq today s.last_reset_date)) [
    | inl same ↦ simp same (sym ((eq_iff today s.last_reset_date).0 same))
    | inr new ↦ simp new refl
  ]

  begin-date :
      (task : TaskClass) (force : Option ModelTier) (today : String) (s : State)
      → (begin c task force today s).last_reset_date ≡ today
  unfolding begin
  begin-date task force today s =
      (policy-kept task (requested_tier c task force) (reset_if_new_day today s)).0
      ∙ reset-date today s

  run-date :
      (ms : List Move) (s : State) → (run c ms s).last_reset_date ≡ last_day s.last_reset_date ms
  unfolding run move
  run-date [] s = refl
  run-date (begins task force today ∷ ms) s =
      run-date ms _ ∙ ap (λ (d : String). last_day d ms) (begin-date task force today s)
  run-date (published n ok ∷ ms) s =
      run-date ms _ ∙ ap (λ (d : String). last_day d ms) (publish-kept ok (pick n s.calls) s).0
  run-date (answered n i ∷ ms) s =
      run-date ms _ ∙ ap (λ (d : String). last_day d ms) (answer-paid i (pick n s.calls) s).0

  begin-same :
      (task : TaskClass) (force : Option ModelTier) (today : String) (s : State)
      → today ≡ s.last_reset_date
      → let t = begin c task force today s in
        (t.spent_today ≡ s.spent_today) × (total_cost t.events ≡ total_cost s.events)
  unfolding begin reset_if_new_day
  begin-same task force today s same =
      let here : str_eq today s.last_reset_date ≡ true = (eq_iff today s.last_reset_date).1 same in
      let kept = policy-kept task (requested_tier c task force) (reset_if_new_day today s) in
      let stays : reset_if_new_day today s ≡ s = rw here refl in
      (
        kept.1 ∙ ap (λ (t : State). t.spent_today) stays,
        kept.2 ∙ ap (λ (t : State). total_cost t.events) stays,
      )

  begin-new :
      (task : TaskClass) (force : Option ModelTier) (today : String) (s : State)
      → str_eq today s.last_reset_date ≡ false
      → let t = begin c task force today s in
        (t.spent_today ≡ 0) × (total_cost t.events ≡ total_cost s.events)
  unfolding begin reset_if_new_day
  begin-new task force today s new =
      let kept = policy-kept task (requested_tier c task force) (reset_if_new_day today s) in
      let date : (reset_if_new_day today s).spent_today ≡ 0 = rw new refl in
      let same : total_cost (reset_if_new_day today s).events ≡ total_cost s.events = rw new refl in
      (kept.1 ∙ date, kept.2 ∙ same)

  onward :
      {day : String} (t : State)
      → t.last_reset_date ≡ day
      → (ms : List Move) → All (IsOn day) ms
      → All (IsOn t.last_reset_date) ms
  onward t same ms on = subst (λ (d : String). All (IsOn d) ms) (sym same) on

  -- While the day lasts, the spending grows with the records.
  run-paid :
      (ms : List Move) (s : State)
      → All (IsOn s.last_reset_date) ms
      → let t = run c ms s in
        t.spent_today + total_cost s.events ≡ s.spent_today + total_cost t.events
  unfolding run move
  run-paid [] s on = refl
  run-paid (begins task force today ∷ ms) s (same, on) =
      let t = begin c task force today s in
      let kept = begin-same task force today s same in
      let later = run-paid ms t (onward t (begin-date task force today s ∙ same) ms on) in
      omega (arith, kept.0, kept.1, later)
  run-paid (published n ok ∷ ms) s (u, on) =
      let t = publish_call ok (pick n s.calls) s in
      let kept = publish-kept ok (pick n s.calls) s in
      let later = run-paid ms t (onward t kept.0 ms on) in omega (arith, kept.1, kept.2, later)
  run-paid (answered n i ∷ ms) s (u, on) =
      let t = answer_call c i (pick n s.calls) s in
      let paid = answer-paid i (pick n s.calls) s in
      let later = run-paid ms t (onward t paid.0 ms on) in omega (arith, paid.1, later)

  -- Let a call begin on another day than the call before it (or than the router's start), and all
  -- calls after it begin on its day. However the calls before and after it overlap, and whichever
  -- fail: the spending that the budget is compared with is the sum of the costs of the calls that
  -- were recorded since it began.
  pub run-spent_today :
      (start : String) (older newer : List Move) (task : TaskClass) (force : Option ModelTier)
      (today : String)
      → str_eq today (last_day start older) ≡ false
      → All (IsOn today) newer
      → let before = run c older (fresh_router start) in
        let after = run c (older ++ begins task force today ∷ newer) (fresh_router start) in
        total_cost before.events + after.spent_today ≡ total_cost after.events
  unfolding run move fresh_router
  run-spent_today start older newer task force today new on =
      let s = run c older (fresh_router start) in
      let t = begin c task force today s in
      let fresh =
        begin-new task force today s
          (ap (λ (d : String). str_eq today d) (run-date older (fresh_router start)) ∙ new) in
      let paid = run-paid newer t (onward t (begin-date task force today s) newer on) in
      rw (run-append older (begins task force today ∷ newer) (fresh_router start))
        (omega (arith, fresh.0, fresh.1, paid))
