-- ===== src/Operator/Tests.antt =====
-- Requests to the Operator agent at concrete inputs, and the theorems at these.
use dcops.Base.{ℕ, ◌≡◌, refl, String, true, false, none, some, List, [], ◌∷◌, length}
use dcops.Base.Int.{pos}
use dcops.Base.Result.{ok}
use dcops.Value.{int, str}
use dcops.Llm.Router.{haiku}
use dcops.Quality.Words.{strip, lstrip, rstrip}
use dcops.Quality.Verifier.{LlmRouter}
use dcops.Quality.Extract.{extract_json, unfenced, outermost, find, rfind}
use dcops.Quality.Structured.{valid, call_structured, attempts}
use dcops.Quality.Grounding.{validate_metrics}
use dcops.Store.Guard.{check_sql, must_be_select, has_token, begins_select, unwrapped}
use dcops.Store.Timescale.{
  Cell, Row, execute, Table, moment, plain, read_only, execute_select, zip_dict,
}
use dcops.Operator.Answer.{OperatorAnswer, model_validate_json}
use dcops.Operator.Runbooks.{retrieve_runbooks}
use dcops.Operator.Charts.{ChartSpec, scatter_lines, chart_spec, multi_line_spec, group, to_traces}
use dcops.Operator.Series.{Distinct, names, points_of, points_of_trace, multi_line_spec-points}
use dcops.Operator.Agent.{text, Services, QueryResult, answer, execute_sql, extract_request, handle}
use dcops.Operator.Sound.{Within}
use dcops.Operator.Published.{Serves, handle-Serves}

abbrev says : LlmRouter ℕ
says log q = ok (record {
  text = "{}";
  model_used = "m";
  tier_used = haiku;
  tokens_in = 1;
  tokens_out = 1;
  usd_cost = 0;
  latency_ms = 1;
  escalated = false;
  downgraded = false;
})

-- An answer with a metric that is not in the catalog.
abbrev reply : String → OperatorAnswer ℕ
reply sql = record {
  answer_text = "hot";
  sql = sql;
  referenced_metrics = "cpu.heat" ∷ [];
  confidence = 1;
}

abbrev text_cell : Cell ℕ → String
text_cell (plain (str s)) = s
text_cell _ = "t"

abbrev temperatures : Table ℕ
temperatures = record {
  columns = "time" ∷ "rack" ∷ "value_num" ∷ [];
  body =
      (moment 1 ∷ plain (str "r1") ∷ plain (int (pos 20)) ∷ [])
      ∷ (moment 2 ∷ plain (str "r2") ∷ plain (int (pos 21)) ∷ [])
      ∷ (moment 3 ∷ plain (str "r1") ∷ plain (int (pos 22)) ∷ [])
      ∷ [];
}

abbrev services : String → Services ℕ ℕ ℕ
services sql = record {
  router = says;
  dumps = λ d. "{}";
  json_schema = [];
  parse = λ s. valid (reply sql);
  message = λ e. "no SELECT";
  dump_answer = λ a. a.sql;
  cache_get = λ question. none;
  runbooks = none;
  rerank = λ question docs k. ok [];
  zero = 0;
  pool = some (record { connection = ok tt; answer = λ sent statement. ok temperatures });
  to_uuid = λ v. none;
  uuid4 = 7;
  show = λ n. "n";
  show_value = λ v. "v";
  text_of = text_cell;
  isoformat = λ t. "iso";
  order = λ names. names;
  bus_takes = true;
  kg_ground_enabled = true;
  cache_enabled = true;
  recall_top_n = 20;
  rerank_top_k = 5;
}

abbrev select : String
select = "SELECT time, rack, value_num FROM telemetry"

-- The unknown metric has the router asked again; the second answer, which has it too, is kept and
-- sent.
asked_twice :
    (length (handle (services select) (text "how hot?") []).log ≡ 2)
    × ((handle (services select) (text "how hot?") []).puts ≡ ("how hot?", select) ∷ [])
    × ((handle (services select) (text "how hot?") []).sent ≡ read_only ∷ execute select none ∷ [])
unfolding handle answer execute_sql extract_request call_structured attempts extract_json unfenced
    outermost find rfind model_validate_json must_be_select check_sql has_token begins_select
    unwrapped validate_metrics execute_select zip_dict retrieve_runbooks strip lstrip rstrip
    chart_spec
asked_twice = (refl, refl, refl)

-- A query that the answer's schema accepts and the client refuses: no rows, and it is published as
-- executed.
abbrev executed : List (QueryResult ℕ ℕ ℕ) → List String
executed [] = []
executed (r ∷ rs) = r.sql_executed ∷ executed rs

refused_query :
    ((handle (services " (SELECT 1)") (text "how hot?") []).sent ≡ [])
    × (executed (handle (services " (SELECT 1)") (text "how hot?") []).published
        ≡ " (SELECT 1)" ∷ [])
unfolding handle answer execute_sql extract_request call_structured attempts extract_json unfenced
    outermost find rfind model_validate_json must_be_select check_sql has_token begins_select
    unwrapped validate_metrics execute_select zip_dict retrieve_runbooks strip lstrip rstrip
    chart_spec
refused_query = (refl, refl)

-- Three attempts at an answer whose query is no SELECT.
no_select :
    (length (handle (services "VACUUM") (text "how hot?") []).log ≡ 3)
    × ((handle (services "VACUUM") (text "how hot?") []).published ≡ [])
unfolding handle answer execute_sql extract_request call_structured attempts extract_json unfenced
    outermost find rfind model_validate_json must_be_select check_sql has_token begins_select
    unwrapped validate_metrics execute_select zip_dict retrieve_runbooks strip lstrip rstrip
    chart_spec
no_select = (refl, refl)

handle-Serves_example :
    Serves (services select) (text "how hot?") [] (handle (services select) (text "how hot?") [])
    × Within 5 [] (handle (services select) (text "how hot?") []).log
handle-Serves_example = handle-Serves (services select) (text "how hot?") []

abbrev row : ℕ → String → Row ℕ
row t rack = ("time", moment t) ∷ ("rack", plain (str rack)) ∷ ("n", plain (str "v")) ∷ []

abbrev rows : List (Row ℕ)
rows = row 1 "r1" ∷ row 2 "r2" ∷ row 3 "r1" ∷ []

abbrev by_rack : ChartSpec ℕ
by_rack = record {
  kind = scatter_lines;
  traces =
      record { name = "r1"; x = "t" ∷ "t" ∷ []; y = plain (str "v") ∷ plain (str "v") ∷ [] }
      ∷ record { name = "r2"; x = "t" ∷ []; y = plain (str "v") ∷ [] }
      ∷ [];
  x_title = "time";
  y_title = "n";
  title = none;
}

two_traces : multi_line_spec text_cell none rows "time" "n" "rack" ≡ ok by_rack
unfolding multi_line_spec group to_traces
two_traces = refl

multi_line_spec-points_example :
    ((key : String)
      → points_of_trace key by_rack.traces ≡ points_of text_cell "time" "n" "rack" key rows)
    × Distinct (names by_rack.traces)
multi_line_spec-points_example =
    multi_line_spec-points text_cell "time" "n" "rack" none rows by_rack two_traces
