-- ===== src/Store/Tests.antt =====
-- Queries of the client at concrete inputs, and the theorems at these.
use dcops.Base.{ℕ, ◌≡◌, refl, String, [], ◌∷◌, codes, none, some}
use dcops.Base.Int.{pos}
use dcops.Base.Result.{ok, err, value_error}
use dcops.Value.{int, str}
use dcops.Store.Guard.{check_sql, must_be_select, has_token, begins_select, unwrapped}
use dcops.Store.Validator.{check_sql-must_be_select}
use dcops.Store.Timescale.{execute, Pool, Table, plain, read_only, execute_select, zip_dict}
use dcops.Store.Safety.{Guarded, execute_select-Guarded}

abbrev two_racks : Table ℕ
two_racks = record {
  columns = "rack" ∷ "n" ∷ [];
  body =
      (plain (str "r1") ∷ plain (int (pos 4)) ∷ [])
      ∷ (plain (str "r2") ∷ plain (int (pos 5)) ∷ [])
      ∷ [];
}

abbrev pool : Pool ℕ
pool = record { connection = ok tt; answer = λ sent statement. ok two_racks }

abbrev query : String
query = "(select rack, n FROM telemetry)"

abbrev delete_newline : String
delete_newline = "WITH gone AS (DELETE\nFROM telemetry RETURNING 1) SELECT 1"

one_row : execute_select (some pool) query none 1 ≡ (
  ok ((("rack", plain (str "r1")) ∷ ("n", plain (int (pos 4))) ∷ []) ∷ []),
  read_only ∷ execute query none ∷ [],
)
unfolding execute_select check_sql has_token begins_select unwrapped zip_dict
one_row = refl

refused : execute_select (some pool) "SELECT 1; drop table telemetry" none 1 ≡ (err value_error, [])
unfolding execute_select check_sql has_token begins_select unwrapped
refused = refl

-- A forbidden word before a line break, and a query in parentheses after a space.
passes_newline : check_sql (codes delete_newline) ≡ ok (codes delete_newline)
unfolding check_sql has_token begins_select unwrapped
passes_newline = refl

after_space :
    (must_be_select (codes " (SELECT 1)") ≡ ok (codes " (SELECT 1)"))
    × (check_sql (codes " (SELECT 1)") ≡ err value_error)
unfolding check_sql must_be_select has_token begins_select unwrapped
after_space = (refl, refl)

accepted : check_sql (codes query) ≡ ok (codes query)
unfolding check_sql has_token begins_select unwrapped
accepted = refl

check_sql-must_be_select_example : must_be_select (codes query) ≡ ok (codes query)
check_sql-must_be_select_example = check_sql-must_be_select (codes query) (codes query) accepted

execute_select-Guarded_example :
    Guarded (some pool) query none 1 (execute_select (some pool) query none 1)
execute_select-Guarded_example = execute_select-Guarded (some pool) query none 1
