-- ===== src/Quality/Majority.antt =====
-- The winner of a vote, apps/agents/shared/quality/self_consistency.py, against the plain count.
use dcops.Base.{
  ℕ, suc, ◌+◌, ◌≤◌, ◌≡◌, refl, sym, subst, inl, inr, String, Bool, Bool-cases, true, false, not,
  ◌&&◌, List, [], ◌∷◌, All, ltb, str_eq, str_eq_refl, eq_iff, if_both, if◌then◌else◌, arith,
}
use dcops.Base.Result.{Result, ok, err, index_error}
use dcops.Quality.Vote.{Counter, bump, counter, greatest, most_common, vote}

-- How often a sample is among the samples.
abbrev count : String → List String → ℕ
count s [] = 0
count s (x ∷ xs) = (if str_eq s x then 1 else 0) + count s xs

abbrev absent : String → Counter → Bool
absent s [] = true
absent s ((y, n) ∷ cs) = not (str_eq s y) && absent s cs

abbrev Distinct : Counter → Type 0
Distinct [] = Unit
Distinct ((y, n) ∷ cs) = (absent y cs ≡ true) × Distinct cs

-- Every entry has the count of its sample.
abbrev Exact : List String → Counter → Type 0
Exact seen cs = All (λ (c : String × ℕ). c.1 ≡ count c.0 seen) cs

absent-bump :
    (z x : String) (cs : Counter)
    → str_eq z x ≡ false
    → absent z cs ≡ true
    → absent z (bump x cs) ≡ true
unfolding bump
absent-bump z x [] differ h = ground (arith, differ)
absent-bump z x ((y, n) ∷ cs) differ h =
    ground (arith, h, absent-bump z x cs differ (ground (arith, h)))

bump-Distinct : (x : String) (cs : Counter) → Distinct cs → Distinct (bump x cs)
unfolding bump
bump-Distinct x [] d = (refl, tt)
bump-Distinct x ((y, n) ∷ cs) (d, ds) =
    if_both Distinct (str_eq x y) (λ same. (d, ds))
      (λ differ. (
        absent-bump y x cs (ground (arith, differ, eq_iff x y, eq_iff y x)) d,
        bump-Distinct x cs ds,
      ))

-- Another sample changes no count.
Exact-later :
    (seen : List String) (x : String) (cs : Counter)
    → absent x cs ≡ true
    → Exact seen cs
    → Exact (x ∷ seen) cs
Exact-later seen x [] a h = tt
Exact-later seen x ((y, n) ∷ cs) a (h, hs) =
    (ground (arith, a, h, eq_iff x y, eq_iff y x), Exact-later seen x cs (ground (arith, a)) hs)

bump-Exact :
    (seen : List String) (x : String) (cs : Counter)
    → Distinct cs
    → (absent x cs ≡ true → count x seen ≡ 0)
    → Exact seen cs
    → Exact (x ∷ seen) (bump x cs)
unfolding bump
bump-Exact seen x [] d new h = (ground (arith, str_eq_refl x, new refl), tt)
bump-Exact seen x ((y, n) ∷ cs) (d, ds) new (h, hs) =
    if_both (Exact (x ∷ seen)) (str_eq x y)
      (λ same. (
        ground (arith, same, h, eq_iff x y, eq_iff y x),
        Exact-later seen x cs
            (subst (λ (z : String). absent z cs ≡ true) (sym ((eq_iff x y).0 same)) d) hs,
      ))
      (λ differ. (
        ground (arith, differ, h, eq_iff x y, eq_iff y x),
        bump-Exact seen x cs ds (λ a. new (ground (arith, differ, a))) hs,
      ))

-- A sample that is not among the keys has not come.
abbrev Complete : List String → Counter → Type 0
Complete seen cs = (s : String) → absent s cs ≡ true → count s seen ≡ 0

absent_before :
    (s x : String) (cs : Counter)
    → absent s (bump x cs) ≡ true
    → (str_eq s x ≡ false) × (absent s cs ≡ true)
unfolding bump
absent_before s x [] h = (ground (arith, h), refl)
absent_before s x ((y, n) ∷ cs) h = elim (Bool-cases (str_eq x y)) [
  | inl same ↦
      let a : absent s ((y, suc n) ∷ cs) ≡ true =
        subst (λ (b : Bool). absent s (if b then (y, suc n) ∷ cs else (y, n) ∷ bump x cs) ≡ true)
          same h in
      let p : x ≡ y = (eq_iff x y).0 same in
      (subst (λ (z : String). str_eq s z ≡ false) (sym p) (ground (arith, a)), a)
  | inr differ ↦
      let a : absent s ((y, n) ∷ bump x cs) ≡ true =
        subst (λ (b : Bool). absent s (if b then (y, suc n) ∷ cs else (y, n) ∷ bump x cs) ≡ true)
          differ h in
      let before = absent_before s x cs (ground (arith, a)) in
      (before.0, ground (arith, a, before.1))
]

record Counts (seen : List String) (cs : Counter) : Type 0 where
  distinct : Distinct cs
  exact : Exact seen cs
  complete : Complete seen cs

bump-Counts :
    (seen : List String) (x : String) (cs : Counter)
    → Counts seen cs
    → Counts (x ∷ seen) (bump x cs)
bump-Counts seen x cs k = record {
  distinct = bump-Distinct x cs k.distinct;
  exact = bump-Exact seen x cs k.distinct (k.complete x) k.exact;
  complete = λ s h.
      let (differ, before) = absent_before s x cs h in ground (arith, differ, k.complete s before);
}

counter-Counts :
    (xs seen : List String) (cs : Counter)
    → Counts seen cs
    → (all_seen : List String) × ((s : String) → count s all_seen ≡ count s xs + count s seen)
      × Counts all_seen (counter xs cs)
unfolding counter
counter-Counts [] seen cs k = (seen, λ s. omega arith, k)
counter-Counts (x ∷ xs) seen cs k =
    let (all_seen, same, k2) = counter-Counts xs (x ∷ seen) (bump x cs) (bump-Counts seen x cs k) in
    (all_seen, λ s. omega (arith, same s), k2)

-- The greatest entry is one of the entries.
greatest-one :
    (P : String × ℕ → Type 0) (best : String × ℕ) (cs : Counter)
    → P best
    → All P cs
    → P (greatest best cs)
unfolding greatest
greatest-one P best [] p ps = p
greatest-one P best (c ∷ cs) p (q, qs) =
    if_both (λ (b : String × ℕ). P (greatest b cs)) (ltb best.1 c.1)
      (λ more. greatest-one P c cs q qs) (λ less. greatest-one P best cs p qs)

greatest-first : (best : String × ℕ) (cs : Counter) → best.1 ≤ (greatest best cs).1
unfolding greatest
greatest-first best [] = omega arith
greatest-first best (c ∷ cs) =
    if_both (λ (b : String × ℕ). best.1 ≤ (greatest b cs).1) (ltb best.1 c.1)
      (λ more. ground (arith, more, greatest-first c cs)) (λ less. greatest-first best cs)

greatest-rest :
    (best : String × ℕ) (cs : Counter) → All (λ (c : String × ℕ). c.1 ≤ (greatest best cs).1) cs
unfolding greatest
greatest-rest best [] = tt
greatest-rest best (c ∷ cs) =
    if_both
      (λ (b : String × ℕ).
        (c.1 ≤ (greatest b cs).1) × All (λ (d : String × ℕ). d.1 ≤ (greatest b cs).1) cs)
      (ltb best.1 c.1) (λ more. (greatest-first c cs, greatest-rest c cs))
      (λ less. (ground (arith, less, greatest-first best cs), greatest-rest best cs))

-- A count is at most a bound of all entries.
count_bounded :
    (seen : List String) (s : String) (bound : ℕ) (cs : Counter)
    → Exact seen cs
    → All (λ (c : String × ℕ). c.1 ≤ bound) cs
    → (absent s cs ≡ true → count s seen ≡ 0)
    → count s seen ≤ bound
count_bounded seen s bound [] h b new = omega (arith, new refl)
count_bounded seen s bound ((y, n) ∷ cs) (h, hs) (b, bs) new = elim (Bool-cases (str_eq s y)) [
  | inl same ↦
      subst (λ (z : String). count z seen ≤ bound) (sym ((eq_iff s y).0 same)) (omega (arith, h, b))
  | inr differ ↦ count_bounded seen s bound cs hs bs (λ a. new (ground (arith, differ, a)))
]

-- The winner of the counts.
Winner : List String → Result (String × ℕ) → Type 0
Winner seen (ok (w, votes)) = (votes ≡ count w seen) × ((s : String) → count s seen ≤ votes)
Winner seen (err e) = (e ≡ index_error) × ((s : String) → count s seen ≡ 0)

most_common-Winner :
    (seen : List String) (cs : Counter) → Counts seen cs → Winner seen (most_common cs)
unfolding most_common Winner
most_common-Winner seen [] k = (refl, λ s. k.complete s refl)
most_common-Winner seen (c ∷ cs) k =
    let top = greatest c cs in
    (
      greatest-one (λ (d : String × ℕ). d.1 ≡ count d.0 seen) c cs k.exact.0 k.exact.1,
      λ s.
          count_bounded seen s top.1 (c ∷ cs) k.exact (greatest-first c cs, greatest-rest c cs)
            (k.complete s),
    )

-- The outcome of a vote: a winner that is counted right and has no less votes than any text; or
-- `IndexError`, when there is no sample.
abbrev Majority : List String → Result (String × ℕ) → Type 0
Majority samples (ok (w, votes)) =
    (votes ≡ count w samples) × ((s : String) → count s samples ≤ votes)
Majority samples (err e) = (e ≡ index_error) × (samples ≡ [])

Majority-Winner :
    (seen samples : List String) (r : Result (String × ℕ))
    → ((s : String) → count s seen ≡ count s samples + 0)
    → Winner seen r
    → Majority samples r
unfolding Winner
Majority-Winner seen samples (ok (w, votes)) same (k, most) =
    (omega (arith, k, same w), λ s. omega (arith, most s, same s))
Majority-Winner seen [] (err e) same (k, most) = (k, refl)
Majority-Winner seen (x ∷ samples) (err e) same (k, most) =
    absurd (ground (arith, same x, most x, str_eq_refl x))

-- A vote on some samples is won by a text with its true count, which no other text exceeds; a vote
-- on no sample raises `IndexError`.
vote-Majority : (samples : List String) → Majority samples (vote samples)
unfolding vote
vote-Majority samples =
    let start : Counts [] [] = record { distinct = tt; exact = tt; complete = λ s h. refl } in
    let (seen, same, k) = counter-Counts samples [] [] start in
    Majority-Winner seen samples (most_common (counter samples [])) same
      (most_common-Winner seen (counter samples []) k)
