-- ===== src/Normalizers/Exposition.antt =====
-- Samples of the Prometheus text format, and what apps/ingestion/normalizers/dcgm.py reads of them.
use Prim.Native.Char.{Char, code}
use Prim.Native.String.{[], ◌∷◌}
use mathlib.Core.List.{List}
use text.Mathlib.TextLemmas.{nil-append, append-nil, cons-append, append_assoc}
use mathlib.Core.Path.{ap₂}
use dcops.Base.{
  ℕ, String, Bool, true, false, not, ◌&&◌, ◌||◌, ◌≡◌, refl, ap, ◌∙◌, some, str_append, is_space,
  ◌==◌, arith, All,
}
use dcops.Value.{Value, Dict, insert}
use dcops.Normalizers.Prometheus.{
  span, is_digit, is_letter, is_name, is_inside, is_decimal, is_decimal_rest, starts_name, is_empty,
  skip_sign, match_value, match_labels, match_name, match_line, outside, in_key, in_value,
  find_labels, parse_labels,
}

-- Every character passes a test.
abbrev pub each : (ℕ → Bool) → String → Bool
each p [] = true
each p (c ∷ s) = p (code c) && each p s

-- A text does not go on with a character that passes it.
abbrev pub stops : (ℕ → Bool) → String → Bool
stops p [] = true
stops p (c ∷ s) = not (p (code c))

span-append :
    (p : ℕ → Bool) (s rest : String)
    → each p s ≡ true
    → stops p rest ≡ true
    → span p (str_append s rest) ≡ (s, rest)
unfolding span
span-append p [] [] h k = refl
span-append p [] (c ∷ rest) h k = rw nil-append (ground (arith, k))
span-append p (c ∷ s) rest h k =
    rw cons-append (rw (span-append p s rest (ground (arith, h)) k) (ground (arith, h)))

span_all : (p : ℕ → Bool) (s : String) → each p s ≡ true → span p s ≡ (s, [])
span_all p s h = rw (append-nil s) at (span-append p s [] h refl)

pub each-append :
    (p : ℕ → Bool) (s t : String)
    → each p s ≡ true
    → each p t ≡ true
    → each p (str_append s t) ≡ true
each-append p [] t h k = rw nil-append k
each-append p (c ∷ s) t h k =
    rw cons-append (ground (arith, h, each-append p s t (ground (arith, h)) k))

-- A whole number in digits.
pub record IsNumeral (value : String) : Type 0 where
  pub digits : each is_digit value ≡ true
  pub some_digit : is_empty value ≡ false

skip_digit : (c : Char) (s : String) → is_digit (code c) ≡ true → skip_sign (c ∷ s) ≡ c ∷ s
skip_digit c s h = ground (arith, h)

numeral-decimal : (value : String) → IsNumeral value → is_decimal value ≡ true
unfolding is_decimal
numeral-decimal [] n = cc (n.some_digit)
numeral-decimal (c ∷ s) n = ap is_decimal_rest (
    ap (span is_digit) (skip_digit c s (ground (arith, n.digits)))
    ∙ span_all is_digit (c ∷ s) n.digits)

numeral_stops : (value : String) → IsNumeral value → stops is_space value ≡ true
numeral_stops [] n = refl
numeral_stops (c ∷ s) n = ground (arith, n.digits)

space_value : (value : String) → IsNumeral value → span is_space (" " ∷ value) ≡ (" ", value)
unfolding span
space_value value n =
    rw (rw nil-append at (span-append is_space [] value refl (numeral_stops value n))) refl

-- name{labels} value
abbrev pub print_sample : String → String → String → String
print_sample name labels value = str_append name ("{" ∷ str_append labels ("}" ∷ " " ∷ value))

pub record IsName (name : String) : Type 0 where
  pub begins : starts_name name ≡ true
  pub name_chars : each is_name name ≡ true

starts_print : (name s : String) → starts_name name ≡ true → starts_name (str_append name s) ≡ true
starts_print [] s h = cc h
starts_print (c ∷ n) s h = rw cons-append h

pub match_line-print_sample :
    (name labels value : String)
    → IsName name
    → each is_inside labels ≡ true
    → IsNumeral value
    → match_line (print_sample name labels value)
      ≡ some (record { name = name; labels = some labels; value = value })
unfolding match_line
match_line-print_sample name labels value named inside n =
    ap₂ match_name (starts_print name _ named.begins)
      (span-append is_name name _ named.name_chars refl)
    ∙ ap (match_labels name) (span-append is_inside labels _ inside refl)
    ∙ ap (match_value name (some labels)) (space_value value n)
    ∙ rw (numeral-decimal value n) refl

-- key="value", and what follows.
abbrev pub print_label : String → String → String → String
print_label k v rest = str_append k ("=" ∷ "\"" ∷ str_append v ("\"" ∷ rest))

abbrev pub is_plain : ℕ → Bool
is_plain c = not (c == 34)

abbrev pub is_key : ℕ → Bool
is_key c = is_letter c || is_digit c

snoc-append :
    (s : String) (c : Char) (t : String)
    → str_append (str_append s (c ∷ [])) t ≡ str_append s (c ∷ t)
snoc-append s c t = simp (append_assoc, cons-append, nil-append)

abbrev starts_key : String → Bool
starts_key [] = false
starts_key (c ∷ s) = is_letter (code c)

read_value :
    (k done v rest : String) (found : Dict)
    → each is_plain v ≡ true
    → find_labels (in_value k done) found (str_append v ("\"" ∷ rest))
      ≡ find_labels outside (insert k (Value.str (str_append done v)) found) rest
unfolding find_labels
read_value k done [] rest found h = rw (nil-append, append-nil) refl
read_value k done (c ∷ v) rest found h =
    let plain : (code c == 34) ≡ false = ground (arith, h) in
    rw (cons-append, ← snoc-append done c v)
      (rw (plain, find_labels)
        (read_value k (str_append done (c ∷ [])) v rest found (ground (arith, h))))

read_key :
    (done k v rest : String) (found : Dict)
    → each is_key k ≡ true
    → each is_plain v ≡ true
    → find_labels (in_key done) found (print_label k v rest)
      ≡ find_labels outside (insert (str_append done k) (Value.str v) found) rest
unfolding find_labels
read_key done [] v rest found h q =
    rw (nil-append, append-nil) (read_value done [] v rest found q ∙ rw nil-append refl)
read_key done (c ∷ k) v rest found h q =
    let goes_on : (is_letter (code c) || is_digit (code c)) ≡ true = ground (arith, h) in
    rw (cons-append, ← snoc-append done c k)
      (rw (goes_on, find_labels)
        (read_key (str_append done (c ∷ [])) k v rest found (ground (arith, h)) q))

-- A label that can be written: a key of letters and digits, and a value without quotes and closing
-- braces.
pub record IsLabel (l : String × String) : Type 0 where
  pub key_begins : starts_key l.0 ≡ true
  pub key_chars : each is_key l.0 ≡ true
  pub value_plain : each is_plain l.1 ≡ true
  pub value_inside : each is_inside l.1 ≡ true

read_label :
    (k v rest : String) (found : Dict)
    → IsLabel (k, v)
    → find_labels outside found (print_label k v rest)
      ≡ find_labels outside (insert k (Value.str v) found) rest
unfolding find_labels
read_label [] v rest found l = cc (l.key_begins)
read_label (c ∷ k) v rest found l =
    let letter : is_letter (code c) ≡ true = l.key_begins in
    rw cons-append (
      rw (letter, find_labels)
        (rw
          (rw (cons-append, nil-append) at
            (read_key (c ∷ []) k v rest found (ground (arith, l.key_chars)) l.value_plain))
          refl))

-- The labels with commas between them.
abbrev pub print_more : List (String × String) → String
print_more List.[] = []
print_more (List.◌∷◌ (k, v) ls) = "," ∷ print_label k v (print_more ls)

abbrev pub print_labels : List (String × String) → String
print_labels List.[] = []
print_labels (List.◌∷◌ (k, v) ls) = print_label k v (print_more ls)

-- The dict of the labels: a later value of a key takes the place of an earlier one.
abbrev pub insert_all : Dict → List (String × String) → Dict
insert_all found List.[] = found
insert_all found (List.◌∷◌ (k, v) ls) = insert_all (insert k (Value.str v) found) ls

read_more :
    (ls : List (String × String)) (found : Dict)
    → All IsLabel ls
    → find_labels outside found (print_more ls) ≡ insert_all found ls
unfolding find_labels
read_more List.[] found good = refl
read_more (List.◌∷◌ (k, v) ls) found (l, good) =
    read_label k v (print_more ls) found l ∙ read_more ls _ good

pub parse_labels-print_labels :
    (ls : List (String × String))
    → All IsLabel ls
    → parse_labels (some (print_labels ls)) ≡ insert_all List.[] ls
unfolding parse_labels find_labels
parse_labels-print_labels List.[] good = refl
parse_labels-print_labels (List.◌∷◌ (k, v) ls) (l, good) =
    read_label k v (print_more ls) List.[] l ∙ read_more ls _ good
