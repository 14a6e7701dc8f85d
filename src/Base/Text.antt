-- ===== src/Base/Text.antt =====
-- Equality of texts as a test, and texts as lists of code points.
use Prim.Native.Nat.{ℕ, ◌-◌}
use Prim.Native.Char.{code}
use Prim.Native.String.{String, [], ◌∷◌}
use mathlib.Core.Path.{◌≡◌, refl}
use mathlib.Core.Bool.{Bool, true, false, ◌||◌, ◌&&◌}
use mathlib.Core.List.{List}
use text.Mathlib.Text.{◌==◌ as str_eq}
use dcops.Base.Tests.{leb, ◌==◌, if◌then◌else◌}
use text.Mathlib.TextEquality.{eq_iff}

-- `s in xs`
abbrev pub str_mem : String → List String → Bool
str_mem s List.[] = false
str_mem s (List.◌∷◌ x xs) = str_eq s x || str_mem s xs

pub str_eq_refl : (s : String) → str_eq s s ≡ true
str_eq_refl s = (eq_iff s s).1 refl

abbrev pub codes : String → List ℕ
codes [] = List.[]
codes (c ∷ s) = List.◌∷◌ (code c) (codes s)

-- The texts of one character that Python's iteration over a text gives.
abbrev pub chars : String → List String
chars [] = List.[]
chars (c ∷ s) = List.◌∷◌ (c ∷ []) (chars s)

-- White space among the ASCII characters.
abbrev pub is_space : ℕ → Bool
is_space c = c == 32 || (leb 9 c && leb c 13) || (leb 28 c && leb c 31)

-- `s.startswith(part)`, on code points.
abbrev pub begins : List ℕ → List ℕ → Bool
begins List.[] s = true
begins (List.◌∷◌ p ps) List.[] = false
begins (List.◌∷◌ p ps) (List.◌∷◌ c s) = p == c && begins ps s

-- `part in s`
abbrev pub occurs : List ℕ → List ℕ → Bool
occurs part List.[] = begins part List.[]
occurs part (List.◌∷◌ c s) = begins part (List.◌∷◌ c s) || occurs part s

-- The text without the characters of a kind at its start.
abbrev pub lstrip_by : (ℕ → Bool) → List ℕ → List ℕ
lstrip_by p List.[] = List.[]
lstrip_by p (List.◌∷◌ c s) = if p c then lstrip_by p s else List.◌∷◌ c s

-- The text without the characters of a kind at its end.
abbrev pub kept : (ℕ → Bool) → ℕ → List ℕ → List ℕ
kept p c List.[] = if p c then List.[] else List.◌∷◌ c List.[]
kept p c (List.◌∷◌ d t) = List.◌∷◌ c (List.◌∷◌ d t)

abbrev pub rstrip_by : (ℕ → Bool) → List ℕ → List ℕ
rstrip_by p List.[] = List.[]
rstrip_by p (List.◌∷◌ c s) = kept p c (rstrip_by p s)

-- `s.upper()` of ASCII texts.
abbrev pub upper : ℕ → ℕ
upper c = if leb b'a' c && leb c b'z' then c - 32 else c
