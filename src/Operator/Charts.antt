-- ===== src/Operator/Charts.antt =====
-- `_chart_spec`, its helpers and `_stringify_rows` of apps/agents/operator/main.py. The order in
-- which a set of names is walked through, the text of a cell and that of a time are arguments.
use dcops.Base.{
  String, Bool, true, false, not, ◌&&◌, Option, none, some, List, [], ◌∷◌, ◌++◌, str_eq, is_some,
  if◌then◌else◌,
}
use dcops.Base.Result.{Result, ok, err, key_error, ◌>>=◌}
use dcops.Value.{bool, int, real, infinite, not_a_number, str, lookup}
use dcops.Store.Timescale.{Cell, moment, plain, Row}

-- One trace of a chart, with the texts of its points and their values.
pub record Trace (D : Type 0) : Type 0 where
  pub name : String
  pub x : List String
  pub y : List (Cell D)

pub data ChartKind : Type 0 where
  scatter_lines bar_chart : ChartKind

pub record ChartSpec (D : Type 0) : Type 0 where
  pub kind : ChartKind
  pub traces : List (Trace D)
  pub x_title : String
  pub y_title : String
  pub title : Option String

abbrev pub keys : {A : Type 0} → List (String × A) → List String
keys [] = []
keys ((k, v) ∷ d) = k ∷ keys d

-- The x texts and the y values of each key, in the order of first appearance.
abbrev pub Groups : Type 0 → Type 0
Groups D = List (String × List String × List (Cell D))

-- `series.setdefault(key, ...)` with the two calls of `append`.
abbrev pub add_point : {D : Type 0} → String → String → Cell D → Groups D → Groups D
add_point k x y [] = (k, x ∷ [], y ∷ []) ∷ []
add_point k x y ((j, xs, ys) ∷ groups) =
    if str_eq k j
    then (j, xs ++ x ∷ [], ys ++ y ∷ []) ∷ groups
    else (j, xs, ys) ∷ add_point k x y groups

module _ {D : Type 0} (text_of : Cell D → String) where
  -- `r[col]`
  abbrev pub cell : String → Row D → Result (Cell D)
  cell col r = elim (lookup col r) [ none ↦ err key_error | some v ↦ ok v ]

  -- `str(r.get(col, ""))`
  abbrev pub category_of : String → Row D → String
  category_of col r = elim (lookup col r) [ none ↦ "" | some v ↦ text_of v ]

  -- `[str(r[x_col]) for r in rows]` and `[r[y_col] for r in rows]`, the first made first.
  unfoldable pub x_values : String → List (Row D) → Result (List String)
  x_values x_col [] = ok []
  x_values x_col (r ∷ rows) = do v ← cell x_col r; vs ← x_values x_col rows; ok (text_of v ∷ vs)

  unfoldable pub y_values : String → List (Row D) → Result (List (Cell D))
  y_values y_col [] = ok []
  y_values y_col (r ∷ rows) = do v ← cell y_col r; vs ← y_values y_col rows; ok (v ∷ vs)

  module _ (title : Option String) where
    -- `_line_spec` and `_bar_spec`
    unfoldable pub one_trace : ChartKind → List (Row D) → String → String → Result (ChartSpec D)
    unfolding x_values y_values
    one_trace kind rows x_col y_col = do
      xs ← x_values x_col rows
      ys ← y_values y_col rows
      ok (record {
        kind = kind;
        traces = record { name = y_col; x = xs; y = ys } ∷ [];
        x_title = x_col;
        y_title = y_col;
        title = title;
      })

    -- The loop of `_multi_line_spec`.
    unfoldable pub group : String → String → String → Groups D → List (Row D) → Result (Groups D)
    group x_col y_col cat_col groups [] = ok groups
    group x_col y_col cat_col groups (r ∷ rows) = do
      x ← cell x_col r
      y ← cell y_col r
      group x_col y_col cat_col (add_point (category_of cat_col r) (text_of x) y groups) rows

    unfoldable pub to_traces : Groups D → List (Trace D)
    to_traces [] = []
    to_traces ((key, xs, ys) ∷ groups) = record { name = key; x = xs; y = ys } ∷ to_traces groups

    unfoldable pub multi_line_spec : List (Row D) → String → String → String → Result (ChartSpec D)
    unfolding group to_traces
    multi_line_spec rows x_col y_col cat_col = do
      groups ← group x_col y_col cat_col [] rows
      ok (record {
        kind = scatter_lines;
        traces = to_traces groups;
        x_title = x_col;
        y_title = y_col;
        title = title;
      })

    -- `isinstance(v, (int, float))`, a truth value being an `int`; and `isinstance(v, str)`.
    abbrev pub is_number : Cell D → Bool
    is_number (plain (bool b)) = true
    is_number (plain (int n)) = true
    is_number (plain (real s m k)) = true
    is_number (plain (infinite s)) = true
    is_number (plain not_a_number) = true
    is_number _ = false

    abbrev pub is_str : Cell D → Bool
    is_str (plain (str s)) = true
    is_str _ = false

    -- The first column whose cell is of a kind.
    unfoldable pub first_column : (Cell D → Bool) → Row D → Option String
    first_column p [] = none
    first_column p ((c, v) ∷ row) = let rest = first_column p row in if p v then some c else rest

    -- The first of the names that is a category of the row.
    unfoldable pub first_category : Row D → List String → Option String
    first_category row [] = none
    first_category row (c ∷ cs) =
        let rest = first_category row cs in
        if not (str_eq c "value_num")
          && not (str_eq c "time")
          && elim (lookup c row) [ none ↦ false | some v ↦ is_str v ]
        then some c
        else rest

    abbrev optional_chart : Result (ChartSpec D) → Result (Option (ChartSpec D))
    optional_chart (ok spec) = ok (some spec)
    optional_chart (err e) = err e

    abbrev time_chart : List (Row D) → Option String → Result (Option (ChartSpec D))
    time_chart rows none = optional_chart (one_trace scatter_lines rows "time" "value_num")
    time_chart rows (some cat_col) =
        optional_chart (multi_line_spec rows "time" "value_num" cat_col)

    abbrev bars : List (Row D) → Option String → Option String → Result (Option (ChartSpec D))
    bars rows (some num_col) (some cat_col) =
        optional_chart (one_trace bar_chart rows cat_col num_col)
    bars rows _ _ = ok none

    unfoldable pub chart_spec :
        (List String → List String) → List (Row D) → Result (Option (ChartSpec D))
    unfolding one_trace multi_line_spec first_column first_category
    chart_spec order [] = ok none
    chart_spec order (first ∷ rest) =
        if is_some (lookup "time" first) && is_some (lookup "value_num" first)
        then time_chart (first ∷ rest) (first_category first (order (keys first)))
        else bars (first ∷ rest) (first_column is_number first) (first_column is_str first)

-- `_stringify_rows`
unfoldable pub stringify_row : {D : Type 0} → (D → String) → Row D → Row D
stringify_row isoformat [] = []
stringify_row isoformat ((k, moment t) ∷ row) =
    (k, plain (str (isoformat t))) ∷ stringify_row isoformat row
stringify_row isoformat ((k, plain v) ∷ row) = (k, plain v) ∷ stringify_row isoformat row
