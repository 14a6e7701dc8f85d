-- ===== src/Quality/Words.antt =====
-- `s.strip()` of ASCII texts, for apps/agents/shared/quality/verifier.py.
use Prim.Native.Char.{code}
use Prim.Native.String.{[], ◌∷◌}
use dcops.Base.{String, is_space, if◌then◌else◌}

unfoldable pub lstrip : String → String
lstrip [] = []
lstrip (c ∷ s) = if is_space (code c) then lstrip s else c ∷ s

unfoldable pub rstrip : String → String
rstrip [] = []
rstrip (c ∷ s) = elim (rstrip s) [
  | [] ↦ if is_space (code c) then [] else c ∷ []
  | d ∷ t ↦ c ∷ d ∷ t
]

unfoldable pub strip : String → String
unfolding lstrip rstrip
strip s = rstrip (lstrip s)
