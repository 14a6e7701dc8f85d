-- ===== src/Store/Safety.antt =====
-- What reaches the database through `execute_select` of apps/agents/shared/ts_client.py.
use dcops.Base.{
  ℕ, ◌≤◌, ◌≡◌, refl, ◌⊎◌, inl, inr, String, Bool, true, false, Option, none, some, List, [], ◌∷◌,
  All, length, length-map, take, length-take, codes, occurs, any, Bool-cases, arith,
}
use dcops.Base.Result.{Exc, Result, ok, err, value_error}
use dcops.Store.Guard.{forbidden_sql_tokens, padded, has_token, begins_select, unwrapped, check_sql}
use dcops.Store.Timescale.{
  Cell, Statement, execute, Pool, Table, Row, zip_dict, read_only, after_read_only, selected,
  checked, in_transaction, execute_select,
}

-- A text that begins with SELECT or WITH and holds none of the tokens.
abbrev pub IsSelect : String → Type 0
IsSelect sql =
    (begins_select (unwrapped (codes sql)) ≡ true)
    × All (λ (token : String). occurs (codes token) (padded (codes sql)) ≡ false)
        forbidden_sql_tokens

-- What one call has sent: nothing, the opening of a read-only transaction that failed, or the query
-- after such an opening that did not.
abbrev pub SendsSelect :
    {D : Type 0} → Option (Pool D) → String → Option (List (Cell D)) → List (Statement D) → Type 0
SendsSelect {D} pool sql params sent =
    (sent ≡ [])
    ⊎ (sent ≡ read_only ∷ [])
    ⊎ ((sent ≡ read_only ∷ execute sql params ∷ [])
        × IsSelect sql
        × ((p : Pool D) × (opened : Table D) × (pool ≡ some p)
            × (p.answer [] read_only ≡ ok opened)))

-- At most so many rows.
abbrev pub HasAtMost : {D : Type 0} → ℕ → Result (List (Row D)) → Type 0
HasAtMost n (ok rows) = length rows ≤ n
HasAtMost n (err e) = e ≡ value_error

any-false :
    {A : Type 0} (p : A → Bool) (xs : List A) → any p xs ≡ false → All (λ (x : A). p x ≡ false) xs
any-false p [] h = tt
any-false p (x ∷ xs) h = (ground arith, any-false p xs (ground arith))

check_sql-IsSelect : (sql : String) (t : List ℕ) → check_sql (codes sql) ≡ ok t → IsSelect sql
unfolding check_sql has_token
check_sql-IsSelect sql t h = elim (Bool-cases (has_token forbidden_sql_tokens (codes sql))) [
  | inl e ↦ ground arith
  | inr e ↦ (
    ground arith,
    any-false (λ (token : String). occurs (codes token) (padded (codes sql))) forbidden_sql_tokens
        e,
  )
]

check_sql-error : (s : List ℕ) (e : Exc) → check_sql s ≡ err e → e ≡ value_error
unfolding check_sql
check_sql-error s e h = ground arith

module _ {D : Type 0} where
  selected-HasAtMost : (n : ℕ) (r : Result (Table D)) → HasAtMost n (selected n r)
  selected-HasAtMost n (ok table) =
      let rows : Table D = record { columns = table.columns; body = take n table.body } in
      omega (
        arith,
        length-map (λ (r : List (Cell D)). zip_dict [] table.columns r) (take n table.body),
        length-take n table.body,
      )
  selected-HasAtMost n (err value_error) = refl
  selected-HasAtMost n (err _) = omega arith

  -- What a call of `execute_select` keeps to.
  abbrev pub Guarded :
      Option (Pool D)
      → String
      → Option (List (Cell D))
      → ℕ
      → Result (List (Row D)) × List (Statement D)
      → Type 0
  Guarded pool sql params n run = SendsSelect pool sql params run.1 × HasAtMost n run.0

  module _ (p : Pool D) (sql : String) (params : Option (List (Cell D))) (n : ℕ) where
    abbrev query : Statement D
    query = execute sql params

    opened-Guarded :
        (r : Result (Table D))
        → p.answer [] read_only ≡ r
        → IsSelect sql
        → Guarded (some p) sql params n (after_read_only p query n r)
    opened-Guarded (err e) h select = (inr (inl refl), selected-HasAtMost n (err e))
    opened-Guarded (ok table) h select = (
      inr (inr (refl, select, (p, table, refl, h))),
      selected-HasAtMost n (p.answer (read_only ∷ []) query),
    )

    connected-Guarded :
        (c : Result Unit)
        → IsSelect sql
        → Guarded (some p) sql params n (in_transaction p query n c)
    connected-Guarded (err e) select = (inl refl, selected-HasAtMost n (err e))
    connected-Guarded (ok u) select = opened-Guarded (p.answer [] read_only) refl select

    checked-Guarded :
        (r : Result (List ℕ))
        → check_sql (codes sql) ≡ r
        → Guarded (some p) sql params n (checked p sql params n r)
    checked-Guarded (err e) h = (inl refl, check_sql-error (codes sql) e h)
    checked-Guarded (ok t) h = connected-Guarded p.connection (check_sql-IsSelect sql t h)

  -- A call of `execute_select` sends nothing, or only the opening of a read-only transaction, or
  -- this and then, when it was answered, the given query, which then begins with SELECT or WITH and
  -- holds no forbidden token; it returns at most `max_rows` rows or raises a `ValueError`.
  pub execute_select-Guarded :
      (pool : Option (Pool D)) (sql : String) (params : Option (List (Cell D))) (max_rows : ℕ)
      → Guarded pool sql params max_rows (execute_select pool sql params max_rows)
  unfolding execute_select
  execute_select-Guarded none sql params n = (inl refl, omega arith)
  execute_select-Guarded (some p) sql params n =
      checked-Guarded p sql params n (check_sql (codes sql)) refl
