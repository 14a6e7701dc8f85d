-- ===== src/Operator/Series.antt =====
-- The traces of `_multi_line_spec` in apps/agents/operator/main.py: one for each category, with the
-- points of its rows.
use dcops.Base.{
  ◌≡◌, refl, sym, ap, subst, ◌∙◌, String, Bool, true, false, Bool-cases, Option, some, List, [],
  ◌∷◌, ◌++◌, append-nil, append_assoc, str_eq, str_mem, str_eq_refl, eq_iff, inl, inr,
  if◌then◌else◌, arith,
}
use dcops.Base.Result.{Result, ok, err, >>=-eq-ok}
use dcops.Value.{lookup}
use dcops.Store.Timescale.{Cell, Row}
use dcops.Operator.Charts.{
  Trace, ChartSpec, Groups, add_point, cell, category_of, group, to_traces, multi_line_spec,
}

-- The points kept for a key, none where it is missing.
abbrev Points : Type 0 → Type 0
Points D = List String × List (Cell D)

-- Names that are different.
abbrev pub Distinct : List String → Type 0
Distinct [] = Unit
Distinct (k ∷ ks) = (str_mem k ks ≡ false) × Distinct ks

module _ {D : Type 0} where
  abbrev group_names : Groups D → List String
  group_names [] = []
  group_names ((k, xs, ys) ∷ groups) = k ∷ group_names groups

  abbrev points_at : String → Groups D → Points D
  points_at k [] = ([], [])
  points_at k ((j, xs, ys) ∷ groups) = if str_eq k j then (xs, ys) else points_at k groups

  -- The points of the trace of that name.
  abbrev pub points_of_trace : String → List (Trace D) → Points D
  points_of_trace k [] = ([], [])
  points_of_trace k (t ∷ ts) = if str_eq k t.name then (t.x, t.y) else points_of_trace k ts

  abbrev pub names : List (Trace D) → List String
  names [] = []
  names (t ∷ ts) = t.name ∷ names ts

  abbrev more : Bool → String → Cell D → Points D → Points D
  more true x y (xs, ys) = (xs ++ x ∷ [], ys ++ y ∷ [])
  more false x y points = points

  points_at-add_point :
      (k j x : String) (y : Cell D) (g : Groups D)
      → points_at k (add_point j x y g) ≡ more (str_eq k j) x y (points_at k g)
  points_at-add_point k j x y [] = elim (Bool-cases (str_eq k j)) [
    | inl e ↦ (rw e refl)
    | inr e ↦ (rw e refl)
  ]
  points_at-add_point k j x y ((i, xs, ys) ∷ g) =
      ground
        (arith, eq_iff k j, eq_iff k i, eq_iff j i, str_eq_refl k, points_at-add_point k j x y g)

  mem-add_point :
      (k j x : String) (y : Cell D) (g : Groups D)
      → str_eq k j ≡ false
      → str_mem k (group_names (add_point j x y g)) ≡ str_mem k (group_names g)
  mem-add_point k j x y [] h = ground arith
  mem-add_point k j x y ((i, xs, ys) ∷ g) h = ground (arith, mem-add_point k j x y g h)

  add_point-Distinct :
      (j x : String) (y : Cell D) (g : Groups D)
      → Distinct (group_names g)
      → Distinct (group_names (add_point j x y g))
  add_point-Distinct j x y [] d = (refl, tt)
  add_point-Distinct j x y ((i, xs, ys) ∷ g) (di, ds) =
      ground (arith, eq_iff i j, eq_iff j i, mem-add_point i j x y g, add_point-Distinct j x y g ds)

  module _ (text_of : Cell D → String) (x_col y_col cat_col : String) where
    -- The points of the rows whose category has that text, in the order of the rows.
    abbrev of_cells : Option (Cell D) → Option (Cell D) → Points D → Points D
    of_cells (some x) (some y) (xs, ys) = (text_of x ∷ xs, y ∷ ys)
    of_cells _ _ points = points

    abbrev pub points_of : String → List (Row D) → Points D
    points_of key [] = ([], [])
    points_of key (r ∷ rows) =
        if str_eq key (category_of text_of cat_col r)
        then of_cells (lookup x_col r) (lookup y_col r) (points_of key rows)
        else points_of key rows

    abbrev joined : Points D → Points D → Points D
    joined (xs, ys) (us, vs) = (xs ++ us, ys ++ vs)

    joined-more :
        (b : Bool) (x : String) (y : Cell D) (p q : Points D)
        → joined (more b x y p) q ≡ joined p (if b then (x ∷ q.0, y ∷ q.1) else q)
    joined-more true x y (xs, ys) (us, vs) =
        (rw (append_assoc xs (x ∷ []) us, append_assoc ys (y ∷ []) vs) refl)
    joined-more false x y p q = refl

    joined-nil : (p : Points D) → joined p ([], []) ≡ p
    joined-nil (xs, ys) = (rw (append-nil xs, append-nil ys) refl)

    points_of-found :
        (key : String) (r : Row D) (rows : List (Row D)) (x y : Cell D)
        → lookup x_col r ≡ some x
        → lookup y_col r ≡ some y
        → (let q = points_of key rows in
            if str_eq key (category_of text_of cat_col r) then (text_of x ∷ q.0, y ∷ q.1) else q)
          ≡ points_of key (r ∷ rows)
    points_of-found key r rows x y ex ey = (rw (ex, ey) refl)

    cell-lookup :
        (col : String) (r : Row D) (v : Cell D) → cell text_of col r ≡ ok v → lookup col r ≡ some v
    cell-lookup col r v h = ground arith

    -- What the loop makes of the groups it has.
    group-points :
        (title : Option String) (g out : Groups D) (rows : List (Row D))
        → group text_of title x_col y_col cat_col g rows ≡ ok out
        → Distinct (group_names g)
        → ((key : String) → points_at key out ≡ joined (points_at key g) (points_of key rows))
          × Distinct (group_names out)
    unfolding group
    group-points title g out [] h d =
        let same : g ≡ out = ground arith in
        (
          λ key. ap (points_at key) (sym same) ∙ sym (joined-nil (points_at key g)),
          subst (λ (o : Groups D). Distinct (group_names o)) same d,
        )
    group-points title g out (r ∷ rows) h d =
        let (x, ex, h1) = >>=-eq-ok (cell text_of x_col r) _ h in
        let (y, ey, h2) = >>=-eq-ok (cell text_of y_col r) _ h1 in
        let key0 = category_of text_of cat_col r in
        let next = add_point key0 (text_of x) y g in
        let (same, distinct) =
          group-points title next out rows h2 (add_point-Distinct key0 (text_of x) y g d) in
        (
          λ key.
              same key
              ∙ ap (λ (p : Points D). joined p (points_of key rows))
                  (points_at-add_point key key0 (text_of x) y g)
              ∙ joined-more (str_eq key key0) (text_of x) y (points_at key g) (points_of key rows)
              ∙ ap (joined (points_at key g)) (
                  points_of-found key r rows x y (cell-lookup x_col r x ex)
                    (cell-lookup y_col r y ey)),
          distinct,
        )

    to_traces-points :
        (title : Option String) (key : String) (g : Groups D)
        → points_of_trace key (to_traces text_of title g) ≡ points_at key g
    unfolding to_traces
    to_traces-points title key [] = refl
    to_traces-points title key ((k, xs, ys) ∷ g) =
        ap (λ (p : Points D). if str_eq key k then (xs, ys) else p) (to_traces-points title key g)

    to_traces-names :
        (title : Option String) (g : Groups D) → names (to_traces text_of title g) ≡ group_names g
    unfolding to_traces
    to_traces-names title [] = refl
    to_traces-names title ((k, xs, ys) ∷ g) =
        ap (λ (ks : List String). k ∷ ks) (to_traces-names title g)

    traces_of : {a b : ChartSpec D} → ok a ≡ ok b → a.traces ≡ b.traces
    traces_of {a} h =
        ap (λ (r : Result (ChartSpec D)). elim r [ ok s ↦ s.traces | err e ↦ a.traces ]) h

    -- When `_multi_line_spec` returns, the traces have different names, and the trace of a category
    -- has just the points of the rows of that category, in the order of the rows.
    pub multi_line_spec-points :
        (title : Option String) (rows : List (Row D)) (spec : ChartSpec D)
        → multi_line_spec text_of title rows x_col y_col cat_col ≡ ok spec
        → ((key : String) → points_of_trace key spec.traces ≡ points_of key rows)
          × Distinct (names spec.traces)
    unfolding multi_line_spec
    multi_line_spec-points title rows spec h =
        let (g, made, e) = >>=-eq-ok (group text_of title x_col y_col cat_col [] rows) _ h in
        let traces : to_traces text_of title g ≡ spec.traces = traces_of e in
        let (same, distinct) = group-points title [] g rows made tt in
        (
          λ key. ap (points_of_trace key) (sym traces) ∙ to_traces-points title key g ∙ same key,
          subst (λ (ts : List (Trace D)). Distinct (names ts)) traces
              (subst Distinct (sym (to_traces-names title g)) distinct),
        )
