-- ===== src/Quality/Vote.antt =====
-- `vote` of apps/agents/shared/quality/self_consistency.py, on the normalized samples in the order
-- of `asyncio.gather`, with answers that are texts.
use dcops.Base.{ℕ, suc, String, List, [], ◌∷◌, ltb, str_eq, if◌then◌else◌}
use dcops.Base.Result.{Result, ok, err, index_error}

-- `Counter`, in the order in which its keys came.
abbrev pub Counter : Type 0
Counter = List (String × ℕ)

unfoldable pub bump : String → Counter → Counter
bump x [] = (x, 1) ∷ []
bump x ((y, n) ∷ cs) = if str_eq x y then (y, suc n) ∷ cs else (y, n) ∷ bump x cs

unfoldable pub counter : List String → Counter → Counter
unfolding bump
counter [] cs = cs
counter (x ∷ xs) cs = counter xs (bump x cs)

-- `most_common(1)[0]`: the first of the greatest.
unfoldable pub greatest : String × ℕ → Counter → String × ℕ
greatest best [] = best
greatest best (c ∷ cs) = greatest (if ltb best.1 c.1 then c else best) cs

unfoldable pub most_common : Counter → Result (String × ℕ)
unfolding greatest
most_common [] = err index_error
most_common (c ∷ cs) = ok (greatest c cs)

-- The winner, its votes and the number of samples, of which the code makes the ratio.
unfoldable pub vote : List String → Result (String × ℕ)
unfolding counter most_common
vote samples = most_common (counter samples [])
