-- ===== src/Policy/Precedence.antt =====
-- Which decision `PolicyEngine.evaluate` takes, in terms of the single policies.
use mathlib.Core.List.{Memᴰ}
use dcops.Base.{
  ℕ, ◌≤◌, ◌≡◌, refl, ap, sym, subst, ◌∙◌, ◌⊎◌, inl, inr, Bool-cases, Bool, true, false, List, [],
  ◌∷◌, any, arith,
}
use dcops.Base.Result.{ok, >>=-eq-ok}
use dcops.Value.{excludes}
use dcops.Events.{Recommendation}
use dcops.Policy.Rules.{
  Decision, approved, denied, needs_human, Policy, Verdict, RuleLanguage, eval_one,
}
use dcops.Policy.Engine.{PolicyEngine, Outcome, is_denied, is_needs_human, evaluate}
use dcops.Policy.Verdicts.{Judged, judge, gives, summarise, evaluate-eq-summarise}

-- Some policy of the list applies to the site and gives a decision of the kind `f`.
abbrev pub Fires : RuleLanguage → Recommendation → ℕ → (Decision → Bool) → List Policy → Type 0
Fires lang rec now f ps =
    (p : Policy) × (v : Verdict) × Memᴰ p ps
    × (excludes rec.site_id p.applies_to_sites ≡ false)
    × (eval_one lang p rec now ≡ ok v)
    × (f v.0 ≡ true)

module _ (lang : RuleLanguage) (rec : Recommendation) (now : ℕ) where
  -- Inversion of `judge` on a policy that applies.
  judge-cons :
      (p : Policy) (ps : List Policy) (js : Judged)
      → judge lang rec now (p ∷ ps) ≡ ok js
      → excludes rec.site_id p.applies_to_sites ≡ false
      → (v : Verdict) × (rest : Judged) × (eval_one lang p rec now ≡ ok v)
        × (judge lang rec now ps ≡ ok rest)
        × (js ≡ (p, v) ∷ rest)
  unfolding judge
  judge-cons p ps js h here =
      let h' = (rw (here, judge) at h) in
      let (v, ev, h2) = >>=-eq-ok (eval_one lang p rec now) _ h' in
      let (rest, ej, h3) = >>=-eq-ok (judge lang rec now ps) _ h2 in (v, rest, ev, ej, cc)

  Fires-of_any :
      (f : Decision → Bool) (ps : List Policy) (js : Judged)
      → judge lang rec now ps ≡ ok js
      → any (gives f) js ≡ true
      → Fires lang rec now f ps
  unfolding judge
  Fires-of_any f [] js h a = absurd (ground arith)
  Fires-of_any f (p ∷ ps) js h a = elim (Bool-cases (excludes rec.site_id p.applies_to_sites)) [
    | inl out ↦
        let (q, v, m, ex, ev, fv) = Fires-of_any f ps js (rw (out, judge) at h) a in
        (q, v, Memᴰ.tail m, ex, ev, fv)
    | inr here ↦
        let (v, rest, ev, ej, e) = judge-cons p ps js h here in
        elim (Bool-cases (f v.0)) [
          | inl fv ↦ (p, v, Memᴰ.head refl, here, ev, fv)
          | inr other ↦
              let (q, w, m, ex, ew, fw) = Fires-of_any f ps rest ej (ground arith) in
              (q, w, Memᴰ.tail m, ex, ew, fw)
        ]
  ]

  any_of_mem :
      (f : Decision → Bool) (ps : List Policy) (js : Judged) (q : Policy) (v : Verdict)
      → judge lang rec now ps ≡ ok js
      → Memᴰ q ps
      → excludes rec.site_id q.applies_to_sites ≡ false
      → eval_one lang q rec now ≡ ok v
      → f v.0 ≡ true
      → any (gives f) js ≡ true
  unfolding judge
  any_of_mem f [] js q v h m ex ev fv = elim m [ ]
  any_of_mem f (p ∷ ps) js q v h (Memᴰ.head e) ex ev fv =
      let (v', rest, ev', ej, e') = judge-cons p ps js h (rw e at ex) in
      let same : v' ≡ v = cc (ev', ev, ap (λ (r : Policy). eval_one lang r rec now) e) in
      ground arith
  any_of_mem f (p ∷ ps) js q v h (Memᴰ.tail m) ex ev fv =
      elim (Bool-cases (excludes rec.site_id p.applies_to_sites)) [
        | inl out ↦ any_of_mem f ps js q v (rw (out, judge) at h) m ex ev fv
        | inr here ↦
            let (v', rest, ev', ej, e') = judge-cons p ps js h here in
            ground (arith, any_of_mem f ps rest q v ej m ex ev fv)
      ]

  -- Each policy of a judged list that applies to the site has a verdict.
  verdict_of_mem :
      (ps : List Policy) (js : Judged) (q : Policy)
      → judge lang rec now ps ≡ ok js
      → Memᴰ q ps
      → excludes rec.site_id q.applies_to_sites ≡ false
      → (v : Verdict) × (eval_one lang q rec now ≡ ok v)
  unfolding judge
  verdict_of_mem [] js q h m ex = elim m [ ]
  verdict_of_mem (p ∷ ps) js q h (Memᴰ.head e) ex =
      let (v, rest, ev, ej, e') = judge-cons p ps js h (rw e at ex) in
      (v, ap (λ (r : Policy). eval_one lang r rec now) e ∙ ev)
  verdict_of_mem (p ∷ ps) js q h (Memᴰ.tail m) ex =
      elim (Bool-cases (excludes rec.site_id p.applies_to_sites)) [
        | inl out ↦ verdict_of_mem ps js q (rw (out, judge) at h) m ex
        | inr here ↦
            let (v, rest, ev, ej, e') = judge-cons p ps js h here in
            verdict_of_mem ps rest q ej m ex
      ]

  judge_total :
      (ps : List Policy)
      → ((q : Policy)
          → Memᴰ q ps
          → excludes rec.site_id q.applies_to_sites ≡ false
          → (v : Verdict) × (eval_one lang q rec now ≡ ok v))
      → (js : Judged) × (judge lang rec now ps ≡ ok js)
  unfolding judge
  judge_total [] h = ([], refl)
  judge_total (p ∷ ps) h =
      let (js, ej) = judge_total ps (λ q m. h q (Memᴰ.tail m)) in
      elim (Bool-cases (excludes rec.site_id p.applies_to_sites)) [
        | inl out ↦ (js, rw (out, judge) ej)
        | inr here ↦
            let (v, ev) = h p (Memᴰ.head refl) here in ((p, v) ∷ js, rw (here, judge, ev, ej) refl)
      ]

-- What stands behind each decision: a policy that denies; else a policy that asks for review or
-- the recommendation's own flag; else nothing of these.
abbrev pub Justified : RuleLanguage → Recommendation → ℕ → List Policy → Decision → Type 0
Justified lang rec now ps denied = Fires lang rec now is_denied ps
Justified lang rec now ps needs_human =
    (¬ Fires lang rec now is_denied ps)
    × (Fires lang rec now is_needs_human ps ⊎ (rec.requires_human_approval ≡ true))
Justified lang rec now ps approved =
    (¬ Fires lang rec now is_denied ps)
    × (¬ Fires lang rec now is_needs_human ps)
    × (rec.requires_human_approval ≡ false)

abbrev pub severity : Decision → ℕ
severity approved = 0
severity needs_human = 1
severity denied = 2

module _ (lang : RuleLanguage) (rec : Recommendation) (now : ℕ) where
  not_Fires :
      (f : Decision → Bool) (ps : List Policy) (js : Judged)
      → judge lang rec now ps ≡ ok js
      → any (gives f) js ≡ false
      → ¬ Fires lang rec now f ps
  not_Fires f ps js h none_gives (q, v, m, ex, ev, fv) =
      cc (none_gives, any_of_mem lang rec now f ps js q v h m ex ev fv)

  summarise-Justified :
      (ps : List Policy) (js : Judged)
      → judge lang rec now ps ≡ ok js
      → Justified lang rec now ps (summarise rec js).0
  unfolding summarise
  summarise-Justified ps js h = elim (Bool-cases (any (gives is_denied) js)) [
    | inl d ↦ rw (d, summarise) (Fires-of_any lang rec now is_denied ps js h d)
    | inr d ↦ elim (Bool-cases (any (gives is_needs_human) js)) [
      | inl n ↦
          rw (d, summarise, n)
            (
              not_Fires is_denied ps js h d,
              inl (Fires-of_any lang rec now is_needs_human ps js h n),
            )
      | inr n ↦ elim (Bool-cases rec.requires_human_approval) [
        | inl flag ↦ rw (d, summarise, n) (simp flag (not_Fires is_denied ps js h d, inr refl))
        | inr flag ↦
            rw (d, summarise, n)
              (simp flag (not_Fires is_denied ps js h d, not_Fires is_needs_human ps js h n, refl))
      ]
    ]
  ]

  judged :
      (engine : PolicyEngine) (o : Outcome)
      → evaluate lang engine rec now ≡ ok o
      → (js : Judged) × (judge lang rec now engine.policies ≡ ok js) × (summarise rec js ≡ o)
  judged engine o h =
      let (js, ej, e) =
        >>=-eq-ok (judge lang rec now engine.policies) (λ js. ok (summarise rec js))
          (sym (evaluate-eq-summarise lang engine rec now) ∙ h) in
      (js, ej, cc)

  -- Whenever `evaluate` returns, its decision is DENIED exactly for a denying policy that applies
  -- to the site, NEEDS_HUMAN exactly for no such policy and either a policy that asks for review or
  -- the recommendation's own flag, and APPROVED otherwise, wherever the policies stand in the list.
  pub evaluate-Justified :
      (engine : PolicyEngine) (o : Outcome)
      → evaluate lang engine rec now ≡ ok o
      → Justified lang rec now engine.policies o.0
  evaluate-Justified engine o h =
      let (js, ej, e) = judged engine o h in
      subst (λ (p : Outcome). Justified lang rec now engine.policies p.0) e
        (summarise-Justified engine.policies js ej)

-- Every policy of one list stands in the other.
abbrev pub Includes : List Policy → List Policy → Type 0
Includes qs ps = (p : Policy) → Memᴰ p ps → Memᴰ p qs

eq_of_severity : {d e : Decision} → severity d ≤ severity e → severity e ≤ severity d → d ≡ e
eq_of_severity {d} {e} h k = ground arith

module _ (lang : RuleLanguage) (rec : Recommendation) (now : ℕ) where
  Fires-mono :
      (f : Decision → Bool) (ps qs : List Policy)
      → Includes qs ps
      → Fires lang rec now f ps
      → Fires lang rec now f qs
  Fires-mono f ps qs sub (q, v, m, ex, ev, fv) = (q, v, sub q m, ex, ev, fv)

  severity_mono :
      (ps qs : List Policy) (d e : Decision)
      → Includes qs ps
      → Justified lang rec now ps d
      → Justified lang rec now qs e
      → severity d ≤ severity e
  severity_mono ps qs approved e sub j k = omega arith
  severity_mono ps qs needs_human approved sub j k = elim j.1 [
    | inl fires ↦ absurd (k.1 (Fires-mono is_needs_human ps qs sub fires))
    | inr flag ↦ cc
  ]
  severity_mono ps qs needs_human needs_human sub j k = omega arith
  severity_mono ps qs needs_human denied sub j k = omega arith
  severity_mono ps qs denied approved sub j k = absurd (k.0 (Fires-mono is_denied ps qs sub j))
  severity_mono ps qs denied needs_human sub j k = absurd (k.0 (Fires-mono is_denied ps qs sub j))
  severity_mono ps qs denied denied sub j k = omega arith

  -- More policies never make the decision more permissive: if every policy of one engine stands in
  -- another, and both return, the decision of the second is at least as severe.
  pub evaluate_mono :
      (e₁ e₂ : PolicyEngine) (o₁ o₂ : Outcome)
      → Includes e₂.policies e₁.policies
      → evaluate lang e₁ rec now ≡ ok o₁
      → evaluate lang e₂ rec now ≡ ok o₂
      → severity o₁.0 ≤ severity o₂.0
  evaluate_mono e₁ e₂ o₁ o₂ sub h₁ h₂ =
      severity_mono e₁.policies e₂.policies o₁.0 o₂.0 sub (evaluate-Justified lang rec now e₁ o₁ h₁)
        (evaluate-Justified lang rec now e₂ o₂ h₂)

  -- Engines with the same policies, in any order and multiplicity, return together and decide the
  -- same: if the first returns, so does the second, with the same decision.
  pub evaluate_order_free :
      (e₁ e₂ : PolicyEngine) (o₁ : Outcome)
      → Includes e₂.policies e₁.policies
      → Includes e₁.policies e₂.policies
      → evaluate lang e₁ rec now ≡ ok o₁
      → (o₂ : Outcome) × (evaluate lang e₂ rec now ≡ ok o₂) × (o₂.0 ≡ o₁.0)
  evaluate_order_free e₁ e₂ o₁ sub sup h₁ =
      let (js₁, ej₁, s₁) = judged lang rec now e₁ o₁ h₁ in
      let (js₂, ej₂) =
        judge_total lang rec now e₂.policies
          (λ q m. verdict_of_mem lang rec now e₁.policies js₁ q ej₁ (sup q m)) in
      let h₂ : evaluate lang e₂ rec now ≡ ok (summarise rec js₂) =
        rw (evaluate-eq-summarise, ej₂) refl in
      (
        summarise rec js₂,
        h₂,
        eq_of_severity (evaluate_mono e₂ e₁ _ _ sup h₂ h₁) (evaluate_mono e₁ e₂ _ _ sub h₁ h₂),
      )
