-- ===== src/Store/Guard.antt =====
-- The tests on the text of a query: those of `execute_select` in apps/agents/shared/ts_client.py
-- and those of the validator `_must_be_select` in apps/agents/shared/quality/schemas.py. Upper case
-- and white space are those of ASCII texts.
use dcops.Base.{
  ℕ, String, Bool, ◌||◌, List, [], ◌∷◌, ◌++◌, map, codes, any, begins, occurs, upper, is_space,
  lstrip_by, rstrip_by, ◌==◌, if◌then◌else◌,
}
use dcops.Base.Result.{Result, ok, err, value_error}

-- `_FORBIDDEN_SQL_TOKENS`
abbrev pub forbidden_sql_tokens : List String
forbidden_sql_tokens =
    "INSERT " ∷ "UPDATE " ∷ "DELETE " ∷ "DROP " ∷ "TRUNCATE " ∷ "ALTER " ∷ "GRANT " ∷ "REVOKE "
    ∷ "CREATE " ∷ " INTO " ∷ "COPY " ∷ []

-- `forbidden` of the validator.
abbrev pub forbidden : List String
forbidden =
    "INSERT " ∷ "UPDATE " ∷ "DELETE " ∷ "DROP " ∷ "TRUNCATE " ∷ "ALTER " ∷ "GRANT " ∷ "REVOKE "
    ∷ "CREATE " ∷ " INTO " ∷ []

-- `" " + sql.upper() + " "`
abbrev pub padded : List ℕ → List ℕ
padded sql = 32 ∷ map upper sql ++ 32 ∷ []

-- Some token of the list is in the padded text.
unfoldable pub has_token : List String → List ℕ → Bool
has_token tokens sql = any (λ (token : String). occurs (codes token) (padded sql)) tokens

-- `stripped.startswith("SELECT") or stripped.startswith("WITH")`
unfoldable pub begins_select : List ℕ → Bool
begins_select stripped = begins (codes "SELECT") stripped || begins (codes "WITH") stripped

-- `text.lstrip("(").lstrip().upper()`
unfoldable pub unwrapped : List ℕ → List ℕ
unwrapped text = map upper (lstrip_by is_space (lstrip_by (λ (c : ℕ). c == b'(') text))

-- The tests of `execute_select`, in their order: the text, or the exception.
unfoldable pub check_sql : List ℕ → Result (List ℕ)
check_sql sql =
    if has_token forbidden_sql_tokens sql
    then err value_error
    else if begins_select (unwrapped sql)
    then ok sql
    else err value_error

-- `_must_be_select`
unfoldable pub must_be_select : List ℕ → Result (List ℕ)
must_be_select v =
    if begins_select (unwrapped (lstrip_by is_space (rstrip_by is_space v)))
    then if has_token forbidden v then err value_error else ok v
    else err value_error
