-- ===== src/Operator/Published.antt =====
-- What one request makes the Operator agent of apps/agents/operator/main.py send and publish.
use dcops.Base.{
  ◌≤◌, ◌≡◌, refl, sym, subst, ◌⊎◌, String, Option, none, some, List, [], ◌∷◌, length, length-map,
  if◌then◌else◌, arith,
}
use dcops.Base.Result.{Exc, Result, ok, err}
use dcops.Quality.Verifier.{Log}
use dcops.Store.Timescale.{Row, Statement}
use dcops.Store.Safety.{SendsSelect, HasAtMost, execute_select-Guarded}
use dcops.Operator.Answer.{OperatorAnswer}
use dcops.Operator.Runbooks.{Source}
use dcops.Operator.Charts.{ChartSpec, chart_spec, stringify_row}
use dcops.Operator.Agent.{
  Payload, QueryRequest, QueryResult, Services, Answered, answered, gave_up, failed, Outcome,
  answer, layout_title, rows_or_none, execute_sql, publish_result, serve_answer, extract_request,
  handle_request, handle,
}
use dcops.Operator.Sound.{Accepted, Within, Concludes, answer-Concludes}

module _ {U F D : Type 0} (services : Services U F D) where
  -- Nothing is sent, published or kept for the cache.
  abbrev pub Quiet : Option Exc → Outcome U F D → Type 0
  Quiet x o = (o.sent ≡ []) × (o.published ≡ []) × (o.puts ≡ []) × (o.exception ≡ x)

  -- The chart's exception ends the request. With a chart, one result is published if the bus takes
  -- it, under the request's identifier, with the answer's text, its query, that chart and at most
  -- 1000 rows.
  abbrev pub Publishes :
      QueryRequest U → OperatorAnswer F → Result (Option (ChartSpec D)) → Outcome U F D → Type 0
  Publishes request a (err e) o = (o.published ≡ []) × (o.exception ≡ some e)
  Publishes request a (ok chart) o =
      (o.exception ≡ none)
      × (r : QueryResult U F D) × (o.published ≡ (if services.bus_takes then r ∷ [] else []))
      × (r.request_id ≡ request.request_id)
      × (r.question ≡ request.question)
      × (r.answer_text ≡ a.answer_text)
      × (r.sql_executed ≡ a.sql)
      × (r.chart_spec ≡ chart)
      × (length r.rows ≤ 1000)

  -- The chart of an answer's rows.
  abbrev pub chart_of : QueryRequest U → OperatorAnswer F → Result (Option (ChartSpec D))
  chart_of request a =
      chart_spec services.text_of (layout_title services request.question) services.order
        (execute_sql services a.sql).0

  -- What a request leaves when its answer ends like this.
  abbrev pub ServesAnswer :
      QueryRequest U → Answered F × Log F × List (String × String) → Outcome U F D → Type 0
  ServesAnswer request (answered a sources, log, puts) o =
      Accepted a
      × SendsSelect services.pool a.sql none o.sent
      × Publishes request a (chart_of request a) o
      × (o.puts ≡ puts)
      × ((puts ≡ []) ⊎ (puts ≡ (request.question, services.dump_answer a) ∷ []))
  ServesAnswer request (gave_up, log, puts) o = Quiet none o
  ServesAnswer request (failed e, log, puts) o = Quiet (some e) o

  abbrev pub ServesRequest : Option (QueryRequest U) → Log F → Outcome U F D → Type 0
  ServesRequest none log o = Quiet none o
  ServesRequest (some request) log o = ServesAnswer request (answer services request.question log) o

  abbrev pub Serves : Payload → Log F → Outcome U F D → Type 0
  Serves event log o = ServesRequest (extract_request services event) log o

  rows_or_none-few :
      (r : Result (List (Row D))) → HasAtMost 1000 r → length (rows_or_none services r) ≤ 1000
  rows_or_none-few (ok rows) few = few
  rows_or_none-few (err e) few = omega arith

  -- The statements that `_execute_sql` sends, and its rows.
  abbrev RunsSelect : String → List (Row D) × List (Statement D) → Type 0
  RunsSelect sql run = SendsSelect services.pool sql none run.1 × (length run.0 ≤ 1000)

  execute_sql-RunsSelect : (sql : String) → RunsSelect sql (execute_sql services sql)
  unfolding execute_sql
  execute_sql-RunsSelect sql =
      let (sends, few) = execute_select-Guarded services.pool sql none 1000 in
      (sends, rows_or_none-few _ few)

  publish_result-Publishes :
      (request : QueryRequest U) (a : OperatorAnswer F) (sources : List (Source F)) (log : Log F)
      (puts : List (String × String)) (run : List (Row D) × List (Statement D))
      (chart : Result (Option (ChartSpec D)))
      → RunsSelect a.sql run
      → let o = publish_result services request a sources log puts run chart in
        SendsSelect services.pool a.sql none o.sent × Publishes request a chart o × (o.puts ≡ puts)
  publish_result-Publishes request a sources log puts (rows, sent) (err e) (sends, few) =
      (sends, (refl, refl), refl)
  publish_result-Publishes request a sources log puts (rows, sent) (ok chart) (sends, few) = (
    sends,
    (
      refl,
      _,
      refl,
      refl,
      refl,
      refl,
      refl,
      refl,
      omega (arith, length-map (λ (r : Row D). stringify_row services.isoformat r) rows),
    ),
    refl,
  )

  log-publish_result :
      (request : QueryRequest U) (a : OperatorAnswer F) (sources : List (Source F)) (log : Log F)
      (puts : List (String × String)) (run : List (Row D) × List (Statement D))
      (chart : Result (Option (ChartSpec D)))
      → (publish_result services request a sources log puts run chart).log ≡ log
  log-publish_result request a sources log puts (rows, sent) (err e) = refl
  log-publish_result request a sources log puts (rows, sent) (ok chart) = refl

  serve_answer-Serves :
      (request : QueryRequest U) (before : Log F)
      (run : Answered F × Log F × List (String × String))
      → Concludes services 5 before request.question run
      → ServesAnswer request run (serve_answer services request run)
        × Within 5 before (serve_answer services request run).log
  serve_answer-Serves request before (answered a sources, log, puts) (good, kept, within) =
      let (sends, publishes, keeps) =
        publish_result-Publishes request a sources log puts _ _ (execute_sql-RunsSelect a.sql) in
      (
        (good, sends, publishes, keeps, kept),
        subst (Within 5 before) (sym (log-publish_result request a sources log puts _ _)) within,
      )
  serve_answer-Serves request before (gave_up, log, puts) (none_kept, within) =
      ((refl, refl, none_kept, refl), within)
  serve_answer-Serves request before (failed e, log, puts) (none_kept, within) =
      ((refl, refl, none_kept, refl), within)

  handle_request-Serves :
      (log : Log F) (request : Option (QueryRequest U))
      → ServesRequest request log (handle_request services log request)
        × Within 5 log (handle_request services log request).log
  handle_request-Serves log none = ((refl, refl, refl, refl), ([], refl, omega arith))
  handle_request-Serves log (some request) =
      serve_answer-Serves request log _ (answer-Concludes services request.question log)

  -- An event has the router called five times at most. An event that is no request, and a request
  -- to which `_answer` gives up or raises, leave no statement, no result and no entry for the
  -- cache; what `_answer` raises ends the handling. With an answer, the validator has accepted the
  -- answer's query; the statements sent are none, or the opening of a read-only transaction, or
  -- this and then that query, which then holds no forbidden token; the entry for the cache, if any,
  -- is that answer under the request's question. An exception of the chart then ends the handling.
  -- Otherwise one result is published if the bus takes it, with the request's identifier and
  -- question, the answer's text, its query, that chart and at most 1000 rows.
  pub handle-Serves :
      (event : Payload) (log : Log F)
      → Serves event log (handle services event log) × Within 5 log (handle services event log).log
  unfolding handle
  handle-Serves event log = handle_request-Serves log (extract_request services event)
