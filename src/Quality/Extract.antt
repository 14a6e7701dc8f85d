-- ===== src/Quality/Extract.antt =====
-- `_extract_json` of apps/agents/shared/quality/structured.py, on code points; white space is that
-- of ASCII texts.
use dcops.Base.{
  ℕ, suc, ◌+◌, ◌-◌, Bool, true, false, Option, none, some, List, [], ◌∷◌, codes, length, take, drop,
  begins, is_space, lstrip_by, rstrip_by, ltb, ◌==◌, if◌then◌else◌,
}

abbrev pub sooner : Bool → Option ℕ → Option ℕ
sooner true rest = some 0
sooner false none = none
sooner false (some n) = some (suc n)

-- `s.find(c)` and `s.rfind(c)`
unfoldable pub find : ℕ → List ℕ → Option ℕ
find c [] = none
find c (d ∷ s) = sooner (c == d) (find c s)

abbrev pub later : Bool → Option ℕ → Option ℕ
later here (some n) = some (suc n)
later here none = if here then some 0 else none

unfoldable pub rfind : ℕ → List ℕ → Option ℕ
rfind c [] = none
rfind c (d ∷ s) = later (c == d) (rfind c s)

abbrev pub strip_codes : List ℕ → List ℕ
strip_codes s = lstrip_by is_space (rstrip_by is_space s)

-- `s.endswith(part)`, for a part that is no longer than the text.
abbrev ends : List ℕ → List ℕ → Bool
ends part s = begins part (drop (length s - length part) s)

-- `s[s.find("\n") + 1:]`, when there is a line break.
unfoldable pub after_line : List ℕ → List ℕ
unfolding find
after_line s = elim (find b'\n' s) [ none ↦ s | some n ↦ drop (n + 1) s ]

-- `s[:-3]` when the text ends with the fence.
unfoldable pub without_fence : List ℕ → List ℕ
without_fence s = if ends (codes "```") s then take (length s - 3) s else s

unfoldable pub unfenced : List ℕ → List ℕ
unfolding after_line without_fence
unfenced s = if begins (codes "```") s then strip_codes (without_fence (after_line s)) else s

-- `s[start : end + 1]` when there is an outermost object.
abbrev pub between : List ℕ → Option ℕ → Option ℕ → List ℕ
between s (some start) (some end) =
    if ltb start end then take (end + 1 - start) (drop start s) else s
between s _ _ = s

unfoldable pub outermost : List ℕ → List ℕ
unfolding find rfind
outermost s = between s (find b'{' s) (rfind b'}' s)

unfoldable pub extract_json : List ℕ → List ℕ
unfolding unfenced outermost
extract_json text = outermost (unfenced (strip_codes text))
