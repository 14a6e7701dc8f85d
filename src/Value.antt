-- ===== src/Value.antt =====
-- Values of Python's dynamic language as the YAML policy file and the JSON events hold them, with
-- the built-in functions that apps/control_plane/policy_engine.py applies to them.
use dcops.Base.{
  ℕ, zero, ◌+◌, ◌-◌, ◌*◌, ◌/◌, ◌^◌, String, Bool, true, false, not, ◌&&◌, ◌||◌, Option, none, some,
  List, [], ◌∷◌, map, str_eq, codes, is_space, chars, leb, ◌==◌, if◌then◌else◌,
}
use dcops.Base.Int.{ℤ, pos, sub_ℕ}
use dcops.Base.Result.{
  Result, ok, err, type_error, value_error, attribute_error, overflow_error, ◌>>=◌,
}

-- A finite float is the exact dyadic number ± m / 2 ^ k that it stands for.
mutual
  pub data Value : Type 0 where
    null : Value
    bool : Bool → Value
    int : ℤ → Value
    real : Bool → ℕ → ℕ → Value
    infinite : Bool → Value
    not_a_number : Value
    str : String → Value
    seq : Items → Value
    mapping : Fields → Value

  pub data Items : Type 0 where
    nil : Items
    cons : Value → Items → Items

  pub data Fields : Type 0 where
    end : Fields
    field : String → Value → Fields → Fields

abbrev pub Dict : Type 0
Dict = List (String × Value)

-- `d.get(k)`
abbrev pub lookup {ℓ} : {V : Type ℓ} → String → List (String × V) → Option V
lookup k [] = none
lookup k ((j, v) ∷ d) = if str_eq k j then some v else lookup k d

-- `d.get(k, default)`
abbrev pub get_or : String → Value → Dict → Value
get_or k v d = elim (lookup k d) [ none ↦ v | some w ↦ w ]

-- `bool(v)`
abbrev pub truthy : Value → Bool
truthy null = false
truthy (bool b) = b
truthy (int (pos zero)) = false
truthy (int n) = true
truthy (real s m k) = not (m == 0)
truthy (infinite s) = true
truthy not_a_number = true
truthy (str s) = not (str_eq s "")
truthy (seq nil) = false
truthy (seq (cons v vs)) = true
truthy (mapping end) = false
truthy (mapping (field k v fs)) = true

-- `isinstance(v, (int, float))`
abbrev pub is_number : Value → Bool
is_number (bool b) = true
is_number (int n) = true
is_number (real s m k) = true
is_number (infinite s) = true
is_number not_a_number = true
is_number _ = false

-- The sign in front of a number.
abbrev pub signed : Bool → ℕ → ℤ
signed false n = pos n
signed true n = sub_ℕ 0 n

is_digit : ℕ → Bool
is_digit c = leb b'0' c && leb c b'9'

-- The characters after a number: white space only.
only_spaces : List ℕ → Bool
only_spaces [] = true
only_spaces (c ∷ cs) = is_space c && only_spaces cs

-- Digits with single underscores between them; `after` tells that the last one was a digit.
digits : Bool → ℕ → List ℕ → Option ℕ
unfolding is_digit only_spaces
digits after n [] = if after then some n else none
digits after n (c ∷ cs) =
    let more = digits true (n * 10 + (c - b'0')) cs in
    let gap = digits false n cs in
    if is_digit c
    then more
    else if after && c == b'_'
    then gap
    else if after && only_spaces (c ∷ cs)
    then some n
    else none

starts_with_digit : List ℕ → Bool
unfolding is_digit
starts_with_digit [] = false
starts_with_digit (c ∷ cs) = is_digit c

unsigned : Bool → List ℕ → Option ℤ
unfolding starts_with_digit digits
unsigned s cs =
    if starts_with_digit cs
    then elim (digits false 0 cs) [ none ↦ none | some n ↦ some (signed s n) ]
    else none

-- `int(text)` on ASCII texts.
unfoldable pub int_of_text : List ℕ → Option ℤ
unfolding unsigned
int_of_text [] = none
int_of_text (c ∷ cs) =
    let rest = int_of_text cs in
    if is_space c
    then rest
    else if c == b'-'
    then unsigned true cs
    else if c == b'+'
    then unsigned false cs
    else unsigned false (c ∷ cs)

-- `int(v)`: a float is cut off towards zero.
unfoldable pub to_int : Value → Result ℤ
unfolding int_of_text
to_int null = err type_error
to_int (bool b) = ok (pos (if b then 1 else 0))
to_int (int n) = ok n
to_int (real s m k) = ok (signed s (m / 2 ^ k))
to_int (infinite s) = err overflow_error
to_int not_a_number = err value_error
to_int (str s) = elim (int_of_text (codes s)) [ none ↦ err value_error | some n ↦ ok n ]
to_int (seq vs) = err type_error
to_int (mapping fs) = err type_error

items : Items → List Value
items nil = []
items (cons v vs) = v ∷ items vs

keys : Fields → List Value
keys end = []
keys (field k v fs) = str k ∷ keys fs

-- `list(v)`
unfoldable pub to_list : Value → Result (List Value)
unfolding items keys
to_list (str s) = ok (map str (chars s))
to_list (seq vs) = ok (items vs)
to_list (mapping fs) = ok (keys fs)
to_list _ = err type_error

-- Lists and mappings cannot be members of a set.
hashable : List Value → Bool
hashable [] = true
hashable (seq vs ∷ xs) = false
hashable (mapping fs ∷ xs) = false
hashable (v ∷ xs) = hashable xs

-- `set(v)`, as the list of what it was built from: the callers test membership and emptiness only.
unfoldable pub to_set : Value → Result (List Value)
unfolding to_list hashable
to_set v = do xs ← to_list v; if hashable xs then ok xs else err type_error

-- `v == text`
abbrev pub is_text : String → Value → Bool
is_text s (str t) = str_eq s t
is_text s _ = false

-- `text in vs`
abbrev pub text_mem : String → List Value → Bool
text_mem s [] = false
text_mem s (v ∷ vs) = is_text s v || text_mem s vs

-- `xs and text not in xs`
abbrev pub excludes : String → List Value → Bool
excludes s [] = false
excludes s (v ∷ vs) = not (text_mem s (v ∷ vs))

unfoldable pub fields : Fields → Dict
fields end = []
fields (field k v fs) = (k, v) ∷ fields fs

-- A value whose `get` is called: only a mapping has that method.
unfoldable pub to_dict : Value → Result Dict
unfolding fields
to_dict (mapping fs) = ok (fields fs)
to_dict _ = err attribute_error

-- `{**d, key: v}`
abbrev pub insert {ℓ} : {V : Type ℓ} → String → V → List (String × V) → List (String × V)
insert k v [] = (k, v) ∷ []
insert k v ((j, w) ∷ d) = if str_eq k j then (k, v) ∷ d else (j, w) ∷ insert k v d
