-- ===== src/Sentinel/Values.antt =====
-- What the rules of apps/agents/sentinel/rules.py read off the events that are recent in a window.
-- Floats are an argument, since they may be NaN.
use dcops.Base.{ℕ, String, Bool, false, Option, none, some, List, [], ◌∷◌, if◌then◌else◌}
use dcops.Base.Int.{ℤ}
use dcops.Base.Result.{Result}
use dcops.Value.{Value, Dict, lookup, is_text}

-- `number` is `float(v)` where `isinstance(v, (int, float))`, `truncate` is `int(x)`, and `decimal
-- n k` is n / 10 ^ k.
pub record Floats (F : Type 0) : Type 0 where
  pub number : Value → Option F
  pub truncate : F → Result ℤ
  pub decimal : ℕ → ℕ → F
  pub less : F → F → Bool
  pub at_most : F → F → Bool
  pub total : List F → F
  pub minus : F → F → F
  pub over : F → F → F
  pub of_count : ℕ → F
  pub to_value : F → Value

abbrev pub is_metric : String → Option Value → Bool
is_metric metric none = false
is_metric metric (some v) = is_text metric v

-- `recent_for_metric`, of the recent events.
unfoldable pub for_metric : String → List Dict → List Dict
for_metric metric [] = []
for_metric metric (r ∷ rows) =
    if is_metric metric (lookup "metric" r)
    then r ∷ for_metric metric rows
    else for_metric metric rows

abbrev pub last_of : {A : Type 0} → List A → Option A
last_of [] = none
last_of (x ∷ []) = some x
last_of (x ∷ y ∷ ys) = last_of (y ∷ ys)

module _ {F : Type 0} (floats : Floats F) where
  open floats use {number, truncate, decimal, less, at_most, total, minus, over, of_count, to_value}

  abbrev pub number_in : Option Value → Option F
  number_in none = none
  number_in (some v) = number v

  -- The numbers among the values, in order.
  unfoldable pub numbers : List Dict → List F
  numbers [] = []
  numbers (r ∷ rows) = elim (number_in (lookup "value" r)) [
    | none ↦ numbers rows
    | some x ↦ x ∷ numbers rows
  ]

  abbrev value_of : Option Dict → Option F
  value_of none = none
  value_of (some r) = number_in (lookup "value" r)

  -- `_last_value`
  unfoldable pub last_value : List Dict → String → Option F
  unfolding for_metric
  last_value rows metric = value_of (last_of (for_metric metric rows))

  -- `max(nums)`: a later number takes over where it is greater.
  unfoldable pub greatest : F → List F → F
  greatest best [] = best
  greatest best (x ∷ xs) = greatest (if less best x then x else best) xs

  abbrev max_of : List F → Option F
  max_of [] = none
  max_of (x ∷ xs) = some (greatest x xs)

  unfoldable pub max_value : List Dict → String → Option F
  unfolding for_metric numbers greatest
  max_value rows metric = max_of (numbers (for_metric metric rows))

  unfoldable pub sum_value : List Dict → String → F
  unfolding for_metric numbers
  sum_value rows metric = total (numbers (for_metric metric rows))
