-- ===== src/Quality/Object.antt =====
-- What `_extract_json` of apps/agents/shared/quality/structured.py finds in an answer.
use dcops.Base.{
  ℕ, zero, suc, ◌+◌, ◌-◌, ◌≡◌, refl, sym, ap, ◌∙◌, inl, inr, Bool, true, false, none, some, List,
  [], ◌∷◌, ◌++◌, All, length, length-append, take, drop, codes, begins, is_space, lstrip_by,
  rstrip_by, kept, Bool-cases, if_both, append_assoc, ltb, ◌==◌, arith,
}
use dcops.Quality.Extract.{find, rfind, strip_codes, unfenced, outermost, extract_json}

-- The text does not hold the character.
abbrev pub Lacks : ℕ → List ℕ → Type 0
Lacks c = All (λ (d : ℕ). (c == d) ≡ false)

same : (c : ℕ) → (c == c) ≡ true
same c = ground arith

find-first :
    (c : ℕ) (pre rest : List ℕ) → Lacks c pre → find c (pre ++ c ∷ rest) ≡ some (length pre)
unfolding find
find-first c [] rest l = (rw (same c) refl)
find-first c (d ∷ pre) rest (ld, ls) = (rw (ld, find-first c pre rest ls) refl)

rfind-none : (c : ℕ) (post : List ℕ) → Lacks c post → rfind c post ≡ none
unfolding rfind
rfind-none c [] l = refl
rfind-none c (d ∷ post) (ld, ls) = (rw (rfind-none c post ls, ld) refl)

rfind-last : (c : ℕ) (xs post : List ℕ) → Lacks c post → rfind c (xs ++ c ∷ post) ≡ some (length xs)
unfolding rfind
rfind-last c [] post l = (rw (rfind-none c post l, same c) refl)
rfind-last c (x ∷ xs) post l = (rw (rfind-last c xs post l) refl)

drop-pre : {A : Type 0} (xs ys : List A) → drop (length xs) (xs ++ ys) ≡ ys
drop-pre [] ys = refl
drop-pre (x ∷ xs) ys = drop-pre xs ys

take-pre : {A : Type 0} (n : ℕ) (xs ys : List A) → n ≡ length xs → take n (xs ++ ys) ≡ xs
take-pre zero [] ys e = refl
take-pre zero (x ∷ xs) ys e = ground arith
take-pre (suc n) [] ys e = ground arith
take-pre {A} (suc n) (x ∷ xs) ys e = ap (λ (zs : List A). x ∷ zs) (take-pre n xs ys (omega arith))

module _ (p : ℕ → Bool) (c : ℕ) (solid : p c ≡ false) where
  lstrip-solid : (xs ys : List ℕ) → lstrip_by p (xs ++ c ∷ ys) ≡ lstrip_by p xs ++ c ∷ ys
  lstrip-solid [] ys = (rw solid refl)
  lstrip-solid (x ∷ xs) ys = elim (Bool-cases (p x)) [
    | inl e ↦ (rw e (lstrip-solid xs ys))
    | inr e ↦ (rw e refl)
  ]

  kept-solid : (u : List ℕ) → kept p c u ≡ c ∷ u
  kept-solid [] = (rw solid refl)
  kept-solid (d ∷ t) = refl

  kept-more : (x : ℕ) (xs ys : List ℕ) → kept p x (xs ++ c ∷ ys) ≡ x ∷ xs ++ c ∷ ys
  kept-more x [] ys = refl
  kept-more x (y ∷ xs) ys = refl

  rstrip-solid : (xs ys : List ℕ) → rstrip_by p (xs ++ c ∷ ys) ≡ xs ++ c ∷ rstrip_by p ys
  rstrip-solid [] ys = kept-solid (rstrip_by p ys)
  rstrip-solid (x ∷ xs) ys = ap (kept p x) (rstrip-solid xs ys) ∙ kept-more x xs (rstrip_by p ys)

module _ (p : ℕ → Bool) (c : ℕ) where
  lstrip-Lacks : (s : List ℕ) → Lacks c s → Lacks c (lstrip_by p s)
  lstrip-Lacks [] l = tt
  lstrip-Lacks (d ∷ s) (ld, ls) = if_both (Lacks c) (p d) (λ e. lstrip-Lacks s ls) (λ e. (ld, ls))

  kept-Lacks : (d : ℕ) (s : List ℕ) → (c == d) ≡ false → Lacks c s → Lacks c (kept p d s)
  kept-Lacks d [] ld ls = if_both (Lacks c) (p d) (λ e. tt) (λ e. (ld, tt))
  kept-Lacks d (x ∷ s) ld ls = (ld, ls)

  rstrip-Lacks : (s : List ℕ) → Lacks c s → Lacks c (rstrip_by p s)
  rstrip-Lacks [] l = tt
  rstrip-Lacks (d ∷ s) (ld, ls) = kept-Lacks d (rstrip_by p s) ld (rstrip-Lacks s ls)

-- The braces of an object, around its body.
abbrev pub braced : List ℕ → List ℕ
braced body = b'{' ∷ body ++ b'}' ∷ []

regroup :
    (pre body post : List ℕ) → (pre ++ b'{' ∷ body) ++ b'}' ∷ post ≡ pre ++ (braced body ++ post)
regroup pre body post =
    append_assoc pre (b'{' ∷ body) (b'}' ∷ post)
    ∙ ap (λ (r : List ℕ). pre ++ b'{' ∷ r) (sym (append_assoc body (b'}' ∷ []) post))

-- White space goes from around an object, not from within.
strip_codes-braced :
    (pre body post : List ℕ)
    → strip_codes (pre ++ (braced body ++ post))
      ≡ lstrip_by is_space pre ++ (braced body ++ rstrip_by is_space post)
strip_codes-braced pre body post =
    let right =
      rstrip-solid is_space b'}' refl (pre ++ b'{' ∷ body) post
      ∙ regroup pre body (rstrip_by is_space post) in
    ap strip_codes (sym (regroup pre body post))
    ∙ ap (lstrip_by is_space) right
    ∙ lstrip-solid is_space b'{' refl pre ((body ++ b'}' ∷ []) ++ rstrip_by is_space post)

outermost-braced :
    (pre body post : List ℕ)
    → Lacks b'{' pre
    → Lacks b'}' post
    → outermost (pre ++ (braced body ++ post)) ≡ braced body
unfolding outermost
outermost-braced pre body post lpre lpost =
    let s : List ℕ = pre ++ (braced body ++ post) in
    let front : List ℕ = pre ++ b'{' ∷ body in
    let last : rfind b'}' s ≡ some (length front) =
      ap (rfind b'}') (sym (regroup pre body post)) ∙ rfind-last b'}' front post lpost in
    let first : find b'{' s ≡ some (length pre) =
      find-first b'{' pre ((body ++ b'}' ∷ []) ++ post) lpre in
    let size : length front + 1 - length pre ≡ length (braced body) =
      omega (arith, length-append pre (b'{' ∷ body), length-append body (b'}' ∷ [])) in
    let after : ltb (length pre) (length front) ≡ true =
      ground (arith, length-append pre (b'{' ∷ body)) in
    (rw (first, last, after, drop-pre pre (braced body ++ post))
      (take-pre (length front + 1 - length pre) (braced body) post size))

-- An object in braces is found whatever stands around it, when no opening brace stands before it
-- and no closing one after it, and the text does not begin with a code fence.
pub extract_json-object :
    (pre body post : List ℕ)
    → Lacks b'{' pre
    → Lacks b'}' post
    → begins (codes "```") (strip_codes (pre ++ (braced body ++ post))) ≡ false
    → extract_json (pre ++ (braced body ++ post)) ≡ braced body
unfolding extract_json unfenced
extract_json-object pre body post lpre lpost plain =
    let s : List ℕ = strip_codes (pre ++ (braced body ++ post)) in
    let whole : unfenced s ≡ s = rw plain refl in
    ap outermost (whole ∙ strip_codes-braced pre body post)
    ∙ outermost-braced (lstrip_by is_space pre) body (rstrip_by is_space post)
        (lstrip-Lacks is_space b'{' pre lpre) (rstrip-Lacks is_space b'}' post lpost)
