-- ===== src/Policy/Verdicts.antt =====
-- The loop of `PolicyEngine.evaluate` as two steps: judge every policy that applies, then
-- summarise the list of verdicts with no loop variables.
use dcops.Base.{
  ℕ, ◌≡◌, refl, ap, ◌∙◌, ◌⊎◌, inl, inr, Bool-cases, Bool, true, false, Option, none, some, or_else,
  List, [], ◌∷◌, ◌++◌, append-nil, append_assoc, any, arith, if◌then◌else◌,
}
use dcops.Base.Result.{Result, ok, err, ◌>>=◌}
use dcops.Value.{excludes}
use dcops.Events.{Recommendation}
use dcops.Policy.Rules.{
  Decision, approved, denied, needs_human, Policy, Verdict, RuleLanguage, eval_one,
}
use dcops.Policy.Engine.{
  PolicyEngine, Note, by_policy, self_flagged, Applied, ran, self_flag, Tally, Outcome, is_denied,
  is_needs_human, record_verdict, run_policies, conclude, evaluate,
}

abbrev pub Judged : Type 0
Judged = List (Policy × Verdict)

module _ (lang : RuleLanguage) (rec : Recommendation) (now : ℕ) where
  -- The verdicts of the policies that apply to the site, in order.
  unfoldable pub judge : List Policy → Result Judged
  judge [] = ok []
  judge (p ∷ ps) = elim (excludes rec.site_id p.applies_to_sites) [
    | true ↦ judge ps
    | false ↦ eval_one lang p rec now >>= λ v. judge ps >>= λ js. ok ((p, v) ∷ js)
  ]

abbrev pub gives : (Decision → Bool) → Policy × Verdict → Bool
gives f (p, (d, r)) = f d

abbrev pub first_note : (Decision → Bool) → Judged → Option Note
first_note f [] = none
first_note f ((p, (d, r)) ∷ js) = if f d then some (by_policy p.id r) else first_note f js

abbrev pub ran_ids : Judged → List Applied
ran_ids [] = []
ran_ids ((p, v) ∷ js) = ran p.id ∷ ran_ids js

tally_after : Tally → Judged → Tally
tally_after t js = record {
  applied = t.applied ++ ran_ids js;
  deny_reason = or_else t.deny_reason (first_note is_denied js);
  human_reason = or_else t.human_reason (first_note is_needs_human js);
}

tally_after-cons :
    (t : Tally) (p : Policy) (v : Verdict) (js : Judged)
    → tally_after (record_verdict p v t) js ≡ tally_after t ((p, v) ∷ js)
unfolding tally_after record_verdict
tally_after-cons t p (d, r) js = ground (arith, append_assoc t.applied (ran p.id ∷ []) (ran_ids js))

-- The rest of the loop after one verdict, given what it does from every tally.
after_verdict :
    (r : Result Verdict) (rest : Result Judged) (p : Policy) (t : Tally)
    (loop : Tally → Result Tally)
    → ((u : Tally) → loop u ≡ (rest >>= λ js. ok (tally_after u js)))
    → (r >>= λ v. loop (record_verdict p v t))
      ≡ (r >>= (λ v. rest >>= λ js. ok ((p, v) ∷ js)) >>= λ js. ok (tally_after t js))
after_verdict (err e) rest p t loop h = refl
after_verdict (ok v) (err e) p t loop h = h (record_verdict p v t)
after_verdict (ok v) (ok js) p t loop h =
    h (record_verdict p v t) ∙ ap {B = Result Tally} ok (tally_after-cons t p v js)

module _ (lang : RuleLanguage) (rec : Recommendation) (now : ℕ) where
  run_policies-eq-judge :
      (ps : List Policy) (t : Tally)
      → run_policies lang rec now ps t ≡ (judge lang rec now ps >>= λ js. ok (tally_after t js))
  unfolding run_policies judge tally_after
  run_policies-eq-judge [] t = ground (arith, append-nil t.applied)
  run_policies-eq-judge (p ∷ ps) t = elim (Bool-cases (excludes rec.site_id p.applies_to_sites)) [
    | inl out ↦ rw (out, run_policies, judge) (run_policies-eq-judge ps t)
    | inr here ↦
        rw (here, run_policies, judge)
          (after_verdict (eval_one lang p rec now) (judge lang rec now ps) p t
            (run_policies lang rec now ps) (run_policies-eq-judge ps))
  ]

-- The outcome of a list of verdicts: a denial outweighs a review, a review an approval, and the
-- note is that of the first policy of the tier.
unfoldable pub summarise : Recommendation → Judged → Outcome
summarise rec js =
    if any (gives is_denied) js
    then (denied, first_note is_denied js, ran_ids js)
    else if any (gives is_needs_human) js
    then (needs_human, first_note is_needs_human js, ran_ids js)
    else if rec.requires_human_approval
    then (needs_human, some self_flagged, ran_ids js ++ self_flag ∷ [])
    else (approved, none, ran_ids js)

-- A note is found exactly if a verdict of the kind is there.
first_note-cases :
    (f : Decision → Bool) (js : Judged)
    → ((any (gives f) js ≡ true) × ((n : Note) × (first_note f js ≡ some n)))
      ⊎ ((any (gives f) js ≡ false) × (first_note f js ≡ none))
first_note-cases f [] = inr (refl, refl)
first_note-cases f ((p, (d, r)) ∷ js) = elim (Bool-cases (f d)) [
  | inl e ↦ inl (rw e refl, (by_policy p.id r, rw e refl))
  | inr e ↦ rw e (first_note-cases f js)
]

conclude-eq-summarise :
    (rec : Recommendation) (js : Judged)
    → conclude rec
        (tally_after (record { applied = []; deny_reason = none; human_reason = none }) js)
      ≡ summarise rec js
unfolding conclude tally_after summarise
conclude-eq-summarise rec js =
    ground (arith, first_note-cases is_denied js, first_note-cases is_needs_human js)

-- `evaluate` judges the policies that apply and returns the summary of the verdicts; it raises
-- exactly what the first policy that raises does.
pub evaluate-eq-summarise :
    (lang : RuleLanguage) (engine : PolicyEngine) (rec : Recommendation) (now : ℕ)
    → evaluate lang engine rec now
      ≡ (judge lang rec now engine.policies >>= λ js. ok (summarise rec js))
unfolding evaluate
evaluate-eq-summarise lang engine rec now =
    rw (run_policies-eq-judge lang rec now engine.policies)
      (finish (judge lang rec now engine.policies))
  where
    finish :
        (r : Result Judged)
        → (r
            >>= (λ js.
                ok (
                  tally_after
                    (record { applied = []; deny_reason = none; human_reason = none })
                    js))
            >>= λ t. ok (conclude rec t))
          ≡ (r >>= λ js. ok (summarise rec js))
    finish (ok js) = ap {B = Result Outcome} ok (conclude-eq-summarise rec js)
    finish (err e) = refl
