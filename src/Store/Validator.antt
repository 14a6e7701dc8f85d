-- ===== src/Store/Validator.antt =====
-- What reaches the database through `execute_select`, and how its tests compare with the validator
-- of the answer's schema.
use dcops.Base.{
  ℕ, ◌≤◌, ◌≡◌, ◌≢◌, refl, ap, subst, inl, inr, String, Bool, true, false, ◌||◌, List, [], ◌∷◌, ◌++◌,
  map, All, codes, begins, occurs, any, upper, is_space, lstrip_by, rstrip_by, kept, Bool-cases,
  ◌==◌, arith,
}
use dcops.Base.Result.{Result, ok}
use dcops.Store.Guard.{
  forbidden_sql_tokens, forbidden, padded, has_token, begins_select, unwrapped, check_sql,
  must_be_select,
}

-- Capital letters, which are no white space and no parenthesis.
abbrev Letters : List ℕ → Type 0
Letters = All (λ (x : ℕ). (65 ≤ x) × (x ≤ 90))

abbrev is_paren : ℕ → Bool
is_paren c = c == b'('

abbrev Spaces : List ℕ → Type 0
Spaces = All (λ (c : ℕ). is_space c ≡ true)

begins-Spaces :
    (ps t w : List ℕ)
    → Letters ps
    → Spaces w
    → begins ps (map upper (t ++ w)) ≡ true
    → begins ps (map upper t) ≡ true
begins-Spaces [] t w l s h = refl
begins-Spaces (p ∷ ps) [] [] l s h = h
begins-Spaces (p ∷ ps) [] (c ∷ w) (lp, ls) (sc, ss) h = ground arith
begins-Spaces (p ∷ ps) (c ∷ t) w (lp, ls) s h = ground (arith, begins-Spaces ps t w ls s)

lstrip-Spaces : (w : List ℕ) → Spaces w → lstrip_by is_space w ≡ []
lstrip-Spaces [] s = refl
lstrip-Spaces (c ∷ w) (sc, ss) = ground (arith, lstrip-Spaces w ss)

lstrip_paren-Spaces : (w : List ℕ) → Spaces w → lstrip_by is_paren w ≡ w
lstrip_paren-Spaces [] s = refl
lstrip_paren-Spaces (c ∷ w) (sc, ss) = ground arith

begins-nonempty : (p : ℕ) (ps : List ℕ) → begins (p ∷ ps) [] ≢ true
begins-nonempty p ps = cc

begins-lstrip-Spaces :
    (p : ℕ) (ps t w : List ℕ)
    → Letters (p ∷ ps)
    → Spaces w
    → begins (p ∷ ps) (map upper (lstrip_by is_space (t ++ w))) ≡ true
    → begins (p ∷ ps) (map upper (lstrip_by is_space t)) ≡ true
begins-lstrip-Spaces p ps [] w l s h =
    subst (λ (u : List ℕ). begins (p ∷ ps) (map upper u) ≡ true) (lstrip-Spaces w s) h
begins-lstrip-Spaces p ps (c ∷ t) w l s h = elim (Bool-cases (is_space c)) [
  | inl e ↦ ground (arith, begins-lstrip-Spaces p ps t w l s)
  | inr e ↦ ground (arith, begins-Spaces (p ∷ ps) (c ∷ t) w l s)
]

begins-unwrapped-Spaces :
    (p : ℕ) (ps t w : List ℕ)
    → Letters (p ∷ ps)
    → Spaces w
    → begins (p ∷ ps) (unwrapped (t ++ w)) ≡ true
    → begins (p ∷ ps) (unwrapped t) ≡ true
unfolding unwrapped
begins-unwrapped-Spaces p ps [] w l s h = begins-lstrip-Spaces p ps [] w l s (
    subst (λ (u : List ℕ). begins (p ∷ ps) (map upper (lstrip_by is_space u)) ≡ true)
      (lstrip_paren-Spaces w s) h)
begins-unwrapped-Spaces p ps (c ∷ t) w l s h = elim (Bool-cases (is_paren c)) [
  | inl e ↦ ground (arith, begins-unwrapped-Spaces p ps t w l s)
  | inr e ↦ ground (arith, begins-lstrip-Spaces p ps (c ∷ t) w l s)
]

kept-Spaces :
    (c : ℕ) (s u w : List ℕ)
    → Spaces w
    → s ≡ u ++ w
    → (v : List ℕ) × Spaces v × ((c ∷ s) ≡ kept is_space c u ++ v)
kept-Spaces c s [] w spaces e = elim (Bool-cases (is_space c)) [
  | inl space ↦ (c ∷ w, (space, spaces), (rw (space, e) refl))
  | inr other ↦ (w, spaces, (rw (other, e) refl))
]
kept-Spaces c s (d ∷ u) w spaces e = (w, spaces, ap (λ (r : List ℕ). c ∷ r) e)

-- A text is what is left of it, and white space.
rstrip-Spaces : (s : List ℕ) → (w : List ℕ) × Spaces w × (s ≡ rstrip_by is_space s ++ w)
rstrip-Spaces [] = ([], tt, refl)
rstrip-Spaces (c ∷ s) =
    let (w, spaces, e) = rstrip-Spaces s in
    let (v, more, e1) = kept-Spaces c s (rstrip_by is_space s) w spaces e in (v, more, e1)

-- A text that begins with a letter has nothing to strip.
lstrip-letter :
    (p : ℕ) (ps u : List ℕ)
    → Letters (p ∷ ps)
    → begins (p ∷ ps) (map upper u) ≡ true
    → (lstrip_by is_space u ≡ u) × (lstrip_by is_paren u ≡ u)
lstrip-letter p ps [] l h = cc
lstrip-letter p ps (c ∷ u) (lp, ls) h = (ground arith, ground arith)

begins-unwrapped-lstrip :
    (p : ℕ) (ps t : List ℕ)
    → Letters (p ∷ ps)
    → begins (p ∷ ps) (unwrapped t) ≡ true
    → begins (p ∷ ps) (unwrapped (lstrip_by is_space t)) ≡ true
unfolding unwrapped
begins-unwrapped-lstrip p ps [] l h = h
begins-unwrapped-lstrip p ps (c ∷ t) l h = elim (Bool-cases (is_space c)) [
  | inl e ↦
      let h1 : begins (p ∷ ps) (map upper (lstrip_by is_space t)) ≡ true = ground arith in
      let (no_space, no_paren) = lstrip-letter p ps (lstrip_by is_space t) l h1 in
      (rw (e, no_paren, no_space) h1)
  | inr e ↦ (rw e h)
]

begins-unwrapped-strip :
    (p : ℕ) (ps s : List ℕ)
    → Letters (p ∷ ps)
    → begins (p ∷ ps) (unwrapped s) ≡ true
    → begins (p ∷ ps) (unwrapped (lstrip_by is_space (rstrip_by is_space s))) ≡ true
begins-unwrapped-strip p ps s l h =
    let (w, spaces, e) = rstrip-Spaces s in
    begins-unwrapped-lstrip p ps (rstrip_by is_space s) l (
      begins-unwrapped-Spaces p ps (rstrip_by is_space s) w l spaces
        (subst (λ (r : List ℕ). begins (p ∷ ps) (unwrapped r) ≡ true) e h))

select-Letters : Letters (codes "SELECT")
select-Letters = ground arith

with-Letters : Letters (codes "WITH")
with-Letters = ground arith

or-map :
    {a b c d : Bool}
    → (a ≡ true → c ≡ true)
    → (b ≡ true → d ≡ true)
    → (a || b) ≡ true
    → (c || d) ≡ true
or-map {a = true} f g h = (rw (f refl) refl)
or-map {a = false} {c = true} f g h = refl
or-map {a = false} {c = false} f g h = g h

begins_select-strip :
    (s : List ℕ)
    → begins_select (unwrapped s) ≡ true
    → begins_select (unwrapped (lstrip_by is_space (rstrip_by is_space s))) ≡ true
unfolding begins_select
begins_select-strip s h =
    or-map (begins-unwrapped-strip b'S' (codes "ELECT") s select-Letters)
      (begins-unwrapped-strip b'W' (codes "ITH") s with-Letters) h

any-prefix :
    {A : Type 0} (p : A → Bool) (xs ys : List A) → any p (xs ++ ys) ≡ false → any p xs ≡ false
any-prefix p [] ys h = refl
any-prefix p (x ∷ xs) ys h = ground (arith, any-prefix p xs ys)

-- The validator's list is part of the client's.
has_token-forbidden :
    (s : List ℕ) → has_token forbidden_sql_tokens s ≡ false → has_token forbidden s ≡ false
unfolding has_token
has_token-forbidden s h =
    any-prefix (λ (token : String). occurs (codes token) (padded s)) forbidden ("COPY " ∷ []) h

check_sql-ok :
    (s t : List ℕ)
    → has_token forbidden_sql_tokens s ≡ false
    → begins_select (unwrapped s) ≡ true
    → check_sql s ≡ ok t
    → ok s ≡ ok t
unfolding check_sql
check_sql-ok s t e k h = subst (λ (r : Result (List ℕ)). r ≡ ok t) (rw (e, k) refl) h

-- A text that the client's tests accept is one that the validator of the answer accepts, unchanged.
pub check_sql-must_be_select : (s t : List ℕ) → check_sql s ≡ ok t → must_be_select s ≡ ok t
unfolding check_sql must_be_select
check_sql-must_be_select s t h = elim (Bool-cases (has_token forbidden_sql_tokens s)) [
  | inl e ↦ ground arith
  | inr e ↦ elim (Bool-cases (begins_select (unwrapped s))) [
    | inr k ↦ ground arith
    | inl k ↦ (rw (begins_select-strip s k, has_token-forbidden s e) (check_sql-ok s t e k h))
  ]
]
