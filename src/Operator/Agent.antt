-- ===== src/Operator/Agent.antt =====
-- `OperatorAgent` of apps/agents/operator/main.py: the answer to a question, the query it holds,
-- and the published result. The router, the cache, the runbooks, the database and Pydantic are
-- arguments.
use dcops.Base.{
  ℕ, String, Bool, Option, none, some, List, [], ◌∷◌, ◌++◌, map, take, chars, codes, str_eq,
  if◌then◌else◌,
}
use dcops.Base.Result.{Exc, Result, ok, err}
use dcops.Value.{Value, str, truthy, Dict, lookup}
use dcops.Llm.Router.{nl_to_sql, LlmResult}
use dcops.Quality.Words.{strip}
use dcops.Quality.Verifier.{Message, Request, Log, LlmRouter}
use dcops.Quality.Structured.{
  Validated, valid, Structured, returned, structured_error, raised, Schema, call_structured,
}
use dcops.Quality.Grounding.{join, validate_metrics, format_grounding_errors}
use dcops.Store.Timescale.{Cell, Row, Statement, Pool, execute_select}
use dcops.Operator.Answer.{OperatorAnswer, model_validate_json}
use dcops.Operator.Runbooks.{Recall, Source, retrieve_runbooks, build_context}
use dcops.Operator.Charts.{ChartSpec, chart_spec, stringify_row}

abbrev pub operator_system : String
operator_system =
    "You are the Operator agent. Translate the user's question into a single SELECT statement against the TimescaleDB telemetry schema, plus a short human answer. Use only canonical metric names from the supplied catalog. Never emit INSERT/UPDATE/DELETE/DDL — output will be rejected if you do."

-- What comes on the bus.
pub data Payload : Type 0 where
  fields_of : Dict → Payload
  text : String → Payload
  other : Payload

pub record QueryRequest (U : Type 0) : Type 0 where
  pub question : String
  pub request_id : U

-- `QueryResult`, with the rows of its metadata; a source is its id, its category and its score.
pub record QueryResult (U F D : Type 0) : Type 0 where
  pub request_id : U
  pub question : String
  pub answer_text : String
  pub sql_executed : String
  pub chart_spec : Option (ChartSpec D)
  pub sources : List (Option String × Value × F)
  pub rows : List (Row D)

-- What the agent stands on; `bus_takes` is false when the publication of a result raises.
pub record Services (U F D : Type 0) : Type 0 where
  pub router : LlmRouter F
  pub dumps : Dict → String
  pub json_schema : Dict
  pub parse : List ℕ → Validated (OperatorAnswer F)
  pub message : Exc → String
  pub dump_answer : OperatorAnswer F → String
  pub cache_get : String → Option String
  pub runbooks : Option (String → ℕ → Result Recall)
  pub rerank : String → List String → ℕ → Result (List (ℕ × F))
  pub zero : F
  pub pool : Option (Pool D)
  pub to_uuid : Value → Option U
  pub uuid4 : U
  pub show : ℕ → String
  pub show_value : Value → String
  pub text_of : Cell D → String
  pub isoformat : D → String
  pub order : List String → List String
  pub bus_takes : Bool
  pub kg_ground_enabled : Bool
  pub cache_enabled : Bool
  pub recall_top_n : ℕ
  pub rerank_top_k : ℕ

-- How `_answer` ends: with an answer and its sources, with a `StructuredOutputError`, or with
-- another exception.
pub data Answered (F : Type 0) : Type 0 where
  answered : OperatorAnswer F → List (Source F) → Answered F
  gave_up : Answered F
  failed : Exc → Answered F

-- What a request leaves behind: the exception that ended it if any, the calls of the router, the
-- entries for the cache, the statements for the database, and the results for the bus.
pub record Outcome (U F D : Type 0) : Type 0 where
  pub exception : Option Exc
  pub log : Log F
  pub puts : List (String × String)
  pub sent : List (Statement D)
  pub published : List (QueryResult U F D)

-- The first characters of a text.
abbrev first_chars : ℕ → String → String
first_chars n s = join "" (take n (chars s))

module _ {U F D : Type 0} (services : Services U F D) where
  open services use {
    router, dumps, json_schema, parse, message, dump_answer, cache_get, runbooks, rerank, zero,
    pool, to_uuid, uuid4, show, show_value, text_of, isoformat, order, bus_takes, kg_ground_enabled,
    cache_enabled, recall_top_n, rerank_top_k,
  }

  -- `OperatorAnswer` as a schema.
  abbrev pub answer_schema : Schema (OperatorAnswer F)
  answer_schema = record {
    json_schema = json_schema;
    model_validate_json = model_validate_json parse message;
  }

  abbrev pub answer_request : List Message → Request F
  answer_request messages = record {
    task_class = nl_to_sql;
    system = operator_system;
    messages = messages;
    max_tokens = 1024;
    force_tier = none;
    temperature = some zero;
    response_format = none;
  }

  abbrev pub structured : ℕ → List Message → Log F → Structured (OperatorAnswer F) × Log F
  structured max_retries messages log =
      call_structured router dumps answer_schema (answer_request messages) max_retries log

  -- The correction round of `_answer`.
  abbrev pub grounding_messages : List Message → OperatorAnswer F → List String → List Message
  grounding_messages messages answer unknown =
      messages
      ++ record { role = "assistant"; content = dump_answer answer }
        ∷ record {
          role = "user";
          content = elim (format_grounding_errors (some unknown) none none) [
            | none ↦ ""
            | some hint ↦ hint
          ];
        }
        ∷ []

  -- The end of `_answer`, with the entry for the cache.
  abbrev pub concluded :
      String
      → List (Source F)
      → Structured (OperatorAnswer F) × Log F
      → Answered F × Log F × List (String × String)
  concluded question sources (returned answer result, log) = (
    answered answer sources,
    log,
    if cache_enabled then (question, dump_answer answer) ∷ [] else [],
  )
  concluded question sources (structured_error last exc, log) = (gave_up, log, [])
  concluded question sources (raised e, log) = (failed e, log, [])

  -- What follows the first structured call: a second one if a metric is unknown.
  abbrev pub regrounded :
      List Message
      → OperatorAnswer F
      → LlmResult
      → Log F
      → List String
      → Structured (OperatorAnswer F) × Log F
  regrounded messages answer result log [] = (returned answer result, log)
  regrounded messages answer result log (u ∷ us) =
      structured 1 (grounding_messages messages answer (u ∷ us)) log

  abbrev pub grounded :
      List Message → Structured (OperatorAnswer F) × Log F → Structured (OperatorAnswer F) × Log F
  grounded messages (returned answer result, log) =
      regrounded messages answer result log
        (if kg_ground_enabled then validate_metrics answer.referenced_metrics else [])
  grounded messages run = run

  abbrev pub asked :
      String → Log F → Result (List (Source F)) → Answered F × Log F × List (String × String)
  asked question log (err e) = (failed e, log, [])
  asked question log (ok sources) =
      let context = build_context show show_value question sources in
      let messages : List Message = record { role = "user"; content = context } ∷ [] in
      concluded question sources (grounded messages (structured 2 messages log))

  abbrev pub uncached : String → Log F → Answered F × Log F × List (String × String)
  uncached question log =
      asked question log (retrieve_runbooks rerank zero recall_top_n rerank_top_k runbooks question)

  abbrev pub from_cache :
      String
      → Log F
      → Option (Validated (OperatorAnswer F))
      → Answered F × Log F × List (String × String)
  from_cache question log (some (valid answer)) = (answered answer [], log, [])
  from_cache question log _ = uncached question log

  -- `_answer`
  unfoldable pub answer : String → Log F → Answered F × Log F × List (String × String)
  answer question log = from_cache question log (elim (cache_get question) [
    | none ↦ none
    | some cached ↦ some (answer_schema.model_validate_json (codes cached))
  ])

  -- `_execute_sql`: a `ValueError` leaves no rows.
  abbrev pub rows_or_none : Result (List (Row D)) → List (Row D)
  rows_or_none (ok rows) = rows
  rows_or_none (err e) = []

  unfoldable pub execute_sql : String → List (Row D) × List (Statement D)
  execute_sql sql = let run = execute_select pool sql none 1000 in (rows_or_none run.0, run.1)

  -- `str(rid_raw)` as a UUID, and a new one when there is none or it is not one.
  abbrev request_id_of : Option Value → U
  request_id_of none = uuid4
  request_id_of (some rid) =
      if truthy rid then elim (to_uuid rid) [ none ↦ uuid4 | some id ↦ id ] else uuid4

  abbrev pub layout_title : String → Option String
  layout_title question = if str_eq question "" then none else some (first_chars 80 question)

  abbrev query_result :
      QueryRequest U
      → OperatorAnswer F
      → List (Row D)
      → List (Source F)
      → Option (ChartSpec D)
      → QueryResult U F D
  query_result request a rows sources chart = record {
    request_id = request.request_id;
    question = request.question;
    answer_text = a.answer_text;
    sql_executed = a.sql;
    chart_spec = chart;
    sources = map (λ (s : Source F). (s.id, s.category, s.score)) sources;
    rows = map (λ (r : Row D). stringify_row isoformat r) rows;
  }

  -- `_publish_result`, when the chart is made or has raised. An exception of the bus is logged and
  -- dropped.
  abbrev pub publish_result :
      QueryRequest U
      → OperatorAnswer F
      → List (Source F)
      → Log F
      → List (String × String)
      → List (Row D) × List (Statement D)
      → Result (Option (ChartSpec D))
      → Outcome U F D
  publish_result request a sources log puts (rows, sent) (err e) = record {
    exception = some e;
    log = log;
    puts = puts;
    sent = sent;
    published = [];
  }
  publish_result request a sources log puts (rows, sent) (ok chart) = record {
    exception = none;
    log = log;
    puts = puts;
    sent = sent;
    published = if bus_takes then query_result request a rows sources chart ∷ [] else [];
  }

  abbrev pub serve_answer :
      QueryRequest U → Answered F × Log F × List (String × String) → Outcome U F D
  serve_answer request (gave_up, log, puts) = record {
    exception = none;
    log = log;
    puts = puts;
    sent = [];
    published = [];
  }
  serve_answer request (failed e, log, puts) = record {
    exception = some e;
    log = log;
    puts = puts;
    sent = [];
    published = [];
  }
  serve_answer request (answered a sources, log, puts) =
      let run = execute_sql a.sql in
      publish_result request a sources log puts run
        (chart_spec text_of (layout_title request.question) order run.0)

  -- `_extract_request`
  abbrev request_of : Option Value → Option Value → Option (QueryRequest U)
  request_of (some (str question)) rid =
      if str_eq (strip question) ""
      then none
      else some (record { question = strip question; request_id = request_id_of rid })
  request_of _ rid = none

  unfoldable pub extract_request : Payload → Option (QueryRequest U)
  extract_request (fields_of d) = request_of (lookup "question" d) (lookup "request_id" d)
  extract_request (text s) =
      if str_eq (strip s) "" then none else some (record { question = strip s; request_id = uuid4 })
  extract_request other = none

  abbrev pub handle_request : Log F → Option (QueryRequest U) → Outcome U F D
  handle_request log none = record {
    exception = none;
    log = log;
    puts = [];
    sent = [];
    published = [];
  }
  handle_request log (some request) = serve_answer request (answer request.question log)

  -- `handle`
  unfoldable pub handle : Payload → Log F → Outcome U F D
  unfolding answer execute_sql extract_request
  handle event log = handle_request log (extract_request event)
