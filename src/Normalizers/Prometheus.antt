-- ===== src/Normalizers/Prometheus.antt =====
-- The Prometheus text format as apps/ingestion/normalizers/dcgm.py reads it, on ASCII texts: the
-- pattern of a line, `_LINE_RE`, and that of a label, `_LABEL_RE`. No character that may follow a
-- name is one of a name, so that a match is found without going back.
use Prim.Native.Char.{code}
use Prim.Native.String.{[], ◌∷◌}
use mathlib.Core.List.{List}
use dcops.Base.{
  ℕ, String, Bool, true, false, not, ◌&&◌, ◌||◌, Option, none, some, is_space, str_append, leb,
  ◌==◌, if◌then◌else◌,
}
use dcops.Value.{Value, Dict, insert}

-- Where `splitlines` breaks a text. A line break of two characters gives one empty line more, which
-- the loop over the lines skips.
abbrev pub is_break : ℕ → Bool
is_break c = (leb 10 c && leb c 13) || (leb 28 c && leb c 30)

abbrev extend_line : String → List String → List String
extend_line c List.[] = List.◌∷◌ c List.[]
extend_line c (List.◌∷◌ line lines) = List.◌∷◌ (str_append c line) lines

-- `body.splitlines()`
unfoldable pub split_lines : String → List String
split_lines [] = List.[]
split_lines (c ∷ s) =
    if is_break (code c) then List.◌∷◌ [] (split_lines s) else extend_line (c ∷ []) (split_lines s)

abbrev pub is_digit : ℕ → Bool
is_digit c = leb b'0' c && leb c b'9'

-- `[a-zA-Z_]`
abbrev pub is_letter : ℕ → Bool
is_letter c = (leb b'a' c && leb c b'z') || (leb b'A' c && leb c b'Z') || c == b'_'

-- The longest start of a text whose characters pass a test, and the rest.
unfoldable pub span : (ℕ → Bool) → String → String × String
span p [] = ([], [])
span p (c ∷ s) =
    let (taken, rest) = span p s in if p (code c) then (c ∷ taken, rest) else ([], c ∷ s)

abbrev pub is_empty : String → Bool
is_empty [] = true
is_empty (c ∷ s) = false

-- The rest of a text after a character, if it starts with it.
abbrev pub after : ℕ → String → Option String
after k [] = none
after k (c ∷ s) = if code c == k then some s else none

abbrev pub skip_sign : String → String
skip_sign [] = []
skip_sign (c ∷ s) = if code c == b'+' || code c == b'-' then s else c ∷ s

-- `(?:[eE][-+]?\d+)?` up to the end.
unfoldable pub is_exponent : String → Bool
unfolding span
is_exponent [] = true
is_exponent (c ∷ s) =
    let (digits, rest) = span is_digit (skip_sign s) in
    (code c == b'e' || code c == b'E') && not (is_empty digits) && is_empty rest

-- The decimals after the digits of a whole part, and the exponent.
unfoldable pub is_decimal_rest : String × String → Bool
unfolding span is_exponent
is_decimal_rest (whole, rest) = elim (after b'.' rest) [
  | none ↦ not (is_empty whole) && is_exponent rest
  | some fraction ↦
      let (digits, end) = span is_digit fraction in
      (not (is_empty whole) || not (is_empty digits)) && is_exponent end
]

-- `[-+]?(?:\d+\.?\d*|\.\d+)(?:[eE][-+]?\d+)?` as a whole text.
unfoldable pub is_decimal : String → Bool
unfolding span is_decimal_rest
is_decimal s = is_decimal_rest (span is_digit (skip_sign s))

-- The groups of `_LINE_RE`: the name, the labels and the value.
pub record Line : Type 0 where
  pub name : String
  pub labels : Option String
  pub value : String

abbrev pub is_name_start : ℕ → Bool
is_name_start c = is_letter c || c == b':'

abbrev pub is_name : ℕ → Bool
is_name c = is_name_start c || is_digit c

abbrev pub starts_name : String → Bool
starts_name [] = false
starts_name (c ∷ s) = is_name_start (code c)

-- `[^}]`
abbrev pub is_inside : ℕ → Bool
is_inside c = not (c == b'}')

-- The white space and the value behind the name and the labels.
unfoldable pub match_value : String → Option String → String × String → Option Line
unfolding is_decimal
match_value name labels (space, value) =
    if not (is_empty space) && is_decimal value
    then some (record { name = name; labels = labels; value = value })
    else none

-- From the text of the labels on, and from the name on.
unfoldable pub match_labels : String → String × String → Option Line
unfolding span match_value
match_labels name (labels, close) = elim (after b'}' close) [
  | none ↦ none
  | some s ↦ match_value name (some labels) (span is_space s)
]

unfoldable pub match_name : Bool → String × String → Option Line
unfolding span match_labels
match_name started (name, rest) =
    if started
    then elim (after b'{' rest) [
      | none ↦ match_value name none (span is_space rest)
      | some inner ↦ match_labels name (span is_inside inner)
    ]
    else none

-- `_LINE_RE.match(line)` on a line without white space at its ends.
unfoldable pub match_line : String → Option Line
unfolding match_name
match_line line = match_name (starts_name line) (span is_name line)

-- How far a label is read: nothing of it, a part of its key, its key and the `=`, or a part of its
-- value too.
pub data Label : Type 0 where
  outside : Label
  in_key : String → Label
  after_key : String → Label
  in_value : String → String → Label

abbrev pub begin_key : String → ℕ → Label
begin_key c k = if is_letter k then in_key c else outside

-- The matches of `_LABEL_RE`, in order, as a dict. Where a match fails, no later start inside its
-- key has one, so that the search goes on behind it; a value that never ends is the last try.
unfoldable pub find_labels : Label → Dict → String → Dict
find_labels l found [] = found
find_labels outside found (c ∷ s) = find_labels (begin_key (c ∷ []) (code c)) found s
find_labels (in_key k) found (c ∷ s) =
    let next =
      if is_letter (code c) || is_digit (code c)
      then in_key (str_append k (c ∷ []))
      else if code c == b'='
      then after_key k
      else outside in
    find_labels next found s
find_labels (after_key k) found (c ∷ s) =
    let next = if code c == 34 then in_value k [] else begin_key (c ∷ []) (code c) in
    find_labels next found s
find_labels (in_value k v) found (c ∷ s) =
    let closed = code c == 34 in
    find_labels (if closed then outside else in_value k (str_append v (c ∷ [])))
      (if closed then insert k (Value.str v) found else found) s

-- `_parse_labels`: without labels, or with an empty text for them, an empty dict.
unfoldable pub parse_labels : Option String → Dict
unfolding find_labels
parse_labels none = List.[]
parse_labels (some s) = find_labels outside List.[] s
