-- ===== src/Sentinel/Strongest.antt =====
-- The decision about a device is its strongest signal: apps/agents/sentinel/main.py.
use dcops.Base.{
  ℕ, ◌≤◌, ◌<◌, ◌≡◌, ◌⊎◌, refl, ap, ◌∙◌, inl, inr, true, ◌&&◌, Option, none, some, List, [], ◌∷◌,
  All, ltb, leb, str_eq, if_both, arith,
}
use dcops.Base.Int.{ℤ}
use dcops.Base.Result.{Result, ok, ◌>>=◌}
use dcops.Value.{Dict}
use dcops.Sentinel.Values.{last_value}
use dcops.Sentinel.Rules.{
  RuleHit, is_fatal, fatal_xid_hit, fatal_xid_of, rule_fatal_xid, and_hit, other_hits, evaluate,
}
use dcops.Sentinel.Decision.{Decision, Setting, best_of, model_proba, choose, decide}

module _ {F : Type 0} (set : Setting F) where
  abbrev at : F → ℕ
  at p = set.rank p

  best_of-first :
      (b : RuleHit F) (hits : List (RuleHit F))
      → at b.probability ≤ at (best_of set b hits).probability
  unfolding best_of
  best_of-first b [] = omega arith
  best_of-first b (h ∷ hits) =
      if_both (λ (x : RuleHit F). at b.probability ≤ at (best_of set x hits).probability)
        (ltb (at b.probability) (at h.probability))
        (λ more. ground (arith, more, best_of-first h hits)) (λ less. best_of-first b hits)

  best_of-hits :
      (b : RuleHit F) (hits : List (RuleHit F))
      → All (λ (h : RuleHit F). at h.probability ≤ at (best_of set b hits).probability) hits
  unfolding best_of
  best_of-hits b [] = tt
  best_of-hits b (h ∷ hits) =
      if_both
        (λ (x : RuleHit F).
          (at h.probability ≤ at (best_of set x hits).probability)
          × All (λ (g : RuleHit F). at g.probability ≤ at (best_of set x hits).probability) hits)
        (ltb (at b.probability) (at h.probability))
        (λ more. (best_of-first h hits, best_of-hits h hits))
        (λ less. (ground (arith, less, best_of-first b hits), best_of-hits b hits))

  All-imp :
      (P Q : RuleHit F → Type 0)
      → ((h : RuleHit F) → P h → Q h)
      → (hits : List (RuleHit F)) → All P hits
      → All Q hits
  All-imp P Q f [] k = tt
  All-imp P Q f (h ∷ hits) (k, ks) = (f h k, All-imp P Q f hits ks)

  -- What is decided of hits and of the model's probability: nothing, when all of them are below the
  -- threshold; else something at least as probable as each of them, and by the model only if it is
  -- more probable than every hit.
  abbrev Strongest : List (RuleHit F) → F → Option (Decision F) → Type 0
  Strongest hits p none =
      All (λ (h : RuleHit F). at h.probability < at set.threshold) hits × (at p < at set.threshold)
  Strongest hits p (some d) =
      (at set.threshold ≤ at d.probability)
      × (at p ≤ at d.probability)
      × All (λ (h : RuleHit F). at h.probability ≤ at d.probability) hits
      × ((str_eq d.source "rule" ≡ true)
          ⊎ All (λ (h : RuleHit F). at h.probability < at d.probability) hits)

  -- With no hit at all, the model's probability is compared with 0.
  choose_alone :
      (p : F) → at (set.floats.decimal 0 0) < at set.threshold → Strongest [] p (choose set [] p)
  unfolding choose
  choose_alone p zero_below =
      if_both (Strongest [] p)
        (ltb (at (set.floats.decimal 0 0)) (at p) && leb (at set.threshold) (at p))
        (λ model. (ground (arith, model), omega arith, tt, inr tt))
        (λ quiet. (tt, ground (arith, quiet, zero_below)))

  -- Let 0 be below the threshold. Nothing is decided only when all hits and the model's probability
  -- are below the threshold. A decision is no less probable than the threshold, the hits and the
  -- model's, and where it is not a rule's it is more probable than every hit.
  choose-Strongest :
      (hits : List (RuleHit F)) (p : F)
      → at (set.floats.decimal 0 0) < at set.threshold
      → Strongest hits p (choose set hits p)
  unfolding choose
  choose-Strongest [] p zero_below = choose_alone p zero_below
  choose-Strongest (h ∷ hits) p zero_below =
      let best = best_of set h hits in
      let all_hits : All (λ (g : RuleHit F). at g.probability ≤ at best.probability) (h ∷ hits) =
        (best_of-first h hits, best_of-hits h hits) in
      if_both (Strongest (h ∷ hits) p)
        (ltb (at best.probability) (at p) && leb (at set.threshold) (at p))
        (λ model. (
          ground (arith, model),
          omega arith,
          All-imp _ _ (λ g k. ground (arith, k, model)) (h ∷ hits) all_hits,
          inr (All-imp _ _ (λ g k. ground (arith, k, model)) (h ∷ hits) all_hits),
        ))
        (λ quiet.
          if_both (Strongest (h ∷ hits) p) (leb (at set.threshold) (at best.probability))
            (λ high. (ground (arith, high), ground (arith, quiet, high), all_hits, inl refl))
            (λ low. (
              All-imp _ _ (λ g k. ground (arith, k, low)) (h ∷ hits) all_hits,
              ground (arith, quiet, low),
            )))

  -- A decision that is at least as probable as a hit above the threshold.
  decided :
      (hit : RuleHit F) (hits : List (RuleHit F)) (p : F) (o : Option (Decision F))
      → Strongest (hit ∷ hits) p o
      → at set.threshold ≤ at hit.probability
      → (d : Decision F) × (o ≡ some d) × (at hit.probability ≤ at d.probability)
  decided hit hits p none (k, below) high = absurd (omega (arith, k.0, high))
  decided hit hits p (some d) (k, _, all_hits, _) high = (d, refl, all_hits.0)

  rule_fatal_xid-fatal :
      (events : List Dict) (xid : F) (code : ℤ)
      → last_value set.floats events "gpu.xid.code" ≡ some xid
      → set.floats.truncate xid ≡ ok code
      → is_fatal code ≡ true
      → rule_fatal_xid set.floats events ≡ ok (some (fatal_xid_hit set.floats code))
  unfolding rule_fatal_xid fatal_xid_of
  rule_fatal_xid-fatal events xid code seen cut fatal =
      ap (fatal_xid_of set.floats) seen ∙ rw (cut, fatal) refl

  -- Let 0 be below the threshold, which is at most 0.98, and let the last XID code of a device that
  -- is a number be a fatal one. Then a failure of the device is decided on, with a probability of
  -- at least 0.98.
  pub decide-fatal :
      (events : List Dict) (xid : F) (code : ℤ)
      → last_value set.floats events "gpu.xid.code" ≡ some xid
      → set.floats.truncate xid ≡ ok code
      → is_fatal code ≡ true
      → at (set.floats.decimal 0 0) < at set.threshold
      → at set.threshold ≤ at (set.floats.decimal 98 2)
      → (d : Decision F) × (decide set events ≡ ok (some d))
        × (at (set.floats.decimal 98 2) ≤ at d.probability)
  unfolding decide evaluate
  decide-fatal events xid code seen cut fatal zero_below high =
      let hit = fatal_xid_hit set.floats code in
      let others = other_hits set.floats events in
      let p = model_proba set events in
      let (d, chosen, likely) =
        decided hit others p (choose set (hit ∷ others) p)
          (choose-Strongest (hit ∷ others) p zero_below) high in
      (
        d,
        ap
              (λ (r : Result (Option (RuleHit F))).
                (r >>= λ x. ok (and_hit set.floats x others)) >>= λ hits. ok (choose set hits p))
              (rule_fatal_xid-fatal events xid code seen cut fatal)
            ∙ ap ok chosen,
        likely,
      )
