-- ===== src/Store/Timescale.antt =====
-- The methods of `TimescaleStore` in apps/agents/shared/ts_client.py, without `insert_telemetry`,
-- which stands with the writer that calls it. The pool of connections is an argument; each method
-- gives its result with the statements it has sent.
use dcops.Base.{ℕ, String, Bool, true, false, Option, none, some, List, [], ◌∷◌, map, take, codes}
use dcops.Base.Int.{pos}
use dcops.Base.Result.{Result, ok, err, value_error}
use dcops.Value.{Value, null, int, str, insert}
use dcops.Store.Guard.{check_sql}

-- What a column holds: a time of the driver, or a value of JSON.
pub data Cell (D : Type 0) : Type 0 where
  moment : D → Cell D
  plain : Value → Cell D

abbrev pub Row : Type 0 → Type 0
Row D = List (String × Cell D)

pub data Statement (D : Type 0) : Type 0 where
  execute : String → Option (List (Cell D)) → Statement D
  execute_many : String → List (List (Cell D)) → Statement D

-- The names of the columns, and the rows.
pub record Table (D : Type 0) : Type 0 where
  pub columns : List String
  pub body : List (List (Cell D))

-- A pool gives a connection or raises; a statement is answered by those before it in the
-- connection.
pub record Pool (D : Type 0) : Type 0 where
  pub connection : Result Unit
  pub answer : List (Statement D) → Statement D → Result (Table D)

module _ {D : Type 0} where
  -- `dict(zip(cols, r, strict=False))`
  unfoldable pub zip_dict : Row D → List String → List (Cell D) → Row D
  zip_dict row [] cells = row
  zip_dict row (c ∷ cs) [] = row
  zip_dict row (c ∷ cs) (v ∷ vs) = zip_dict (insert c v row) cs vs

  abbrev pub to_rows : Table D → List (Row D)
  to_rows table = map (λ (r : List (Cell D)). zip_dict [] table.columns r) table.body

  -- `SET TRANSACTION READ ONLY`
  abbrev pub read_only : Statement D
  read_only = execute "SET TRANSACTION READ ONLY" none

  -- The handlers of `execute_select`: a `ValueError` goes on, anything else is logged.
  abbrev pub selected : ℕ → Result (Table D) → Result (List (Row D))
  selected max_rows (ok table) =
      ok (to_rows (record { columns = table.columns; body = take max_rows table.body }))
  selected max_rows (err value_error) = err value_error
  selected max_rows (err e) = ok []

  module _ (pool : Pool D) (query : Statement D) (max_rows : ℕ) where
    abbrev pub after_read_only : Result (Table D) → Result (List (Row D)) × List (Statement D)
    after_read_only (err e) = (selected max_rows (err e), read_only ∷ [])
    after_read_only (ok table) =
        (selected max_rows (pool.answer (read_only ∷ []) query), read_only ∷ query ∷ [])

    abbrev pub in_transaction : Result Unit → Result (List (Row D)) × List (Statement D)
    in_transaction (err e) = (selected max_rows (err e), [])
    in_transaction (ok u) = after_read_only (pool.answer [] read_only)

  -- `execute_select`, after its tests.
  abbrev pub checked :
      Pool D
      → String
      → Option (List (Cell D))
      → ℕ
      → Result (List ℕ)
      → Result (List (Row D)) × List (Statement D)
  checked pool sql params max_rows (err e) = (err e, [])
  checked pool sql params max_rows (ok text) =
      in_transaction pool (execute sql params) max_rows pool.connection

  unfoldable pub execute_select :
      Option (Pool D)
      → String
      → Option (List (Cell D))
      → ℕ
      → Result (List (Row D)) × List (Statement D)
  unfolding check_sql
  execute_select none sql params max_rows = (ok [], [])
  execute_select (some pool) sql params max_rows =
      checked pool sql params max_rows (check_sql (codes sql))

  -- One statement in a connection of its own, with what an exception gives in place of its result.
  abbrev sent :
      {A : Type 0} → Pool D → Statement D → (Table D → A) → A → Result Unit → A × List (Statement D)
  sent pool statement result otherwise (err e) = (otherwise, [])
  sent pool statement result otherwise (ok u) = (
    elim (pool.answer [] statement) [ ok table ↦ result table | err e ↦ otherwise ],
    statement ∷ [],
  )

  abbrev int_cell : ℕ → Cell D
  int_cell n = plain (int (pos n))

  unfoldable pub recent_telemetry :
      Option (Pool D) → String → String → ℕ → List (Row D) × List (Statement D)
  recent_telemetry none device_id window limit = ([], [])
  recent_telemetry (some pool) device_id window limit =
      sent pool
        (execute
          "\n            SELECT time, metric, value_num, value_str, unit, severity, metadata\n              FROM telemetry\n             WHERE device_id = %s\n               AND time >= NOW() - (%s || ' seconds')::interval\n             ORDER BY time DESC\n             LIMIT %s\n        "
          (some (plain (str device_id) ∷ plain (str window) ∷ int_cell limit ∷ [])))
        to_rows [] pool.connection

  abbrev optional : Option String → Cell D
  optional none = plain null
  optional (some s) = plain (str s)

  -- `insert_incident`; the identifiers come as their texts.
  unfoldable pub insert_incident :
      (Value → String)
      → Option (Pool D)
      → String
      → D
      → String
      → String
      → Value
      → Value
      → Value
      → Value
      → Option String
      → Option String
      → Bool × List (Statement D)
  insert_incident dumps none incident_id opened_at site_id severity affected_devices top_hypotheses
        confidence llm_cost_usd llm_model_used trace_id =
      (false, [])
  insert_incident dumps (some pool) incident_id opened_at site_id severity affected_devices
        top_hypotheses confidence llm_cost_usd llm_model_used trace_id =
      sent pool
        (execute
          "\n            INSERT INTO incidents (\n                incident_id, opened_at, site_id, severity,\n                affected_devices, top_hypotheses, confidence,\n                llm_cost_usd, llm_model_used, trace_id\n            )\n            VALUES (%s, %s, %s, %s, %s, %s::jsonb, %s, %s, %s, %s)\n            ON CONFLICT (incident_id) DO NOTHING\n        "
          (some (
            plain (str incident_id)
            ∷ moment opened_at
            ∷ plain (str site_id)
            ∷ plain (str severity)
            ∷ plain affected_devices
            ∷ plain (str (dumps top_hypotheses))
            ∷ plain confidence
            ∷ plain llm_cost_usd
            ∷ optional llm_model_used
            ∷ optional trace_id
            ∷ [])))
        (λ table. true) false pool.connection
