-- ===== src/Quality/Structured.antt =====
-- `call_structured` of apps/agents/shared/quality/structured.py. Pydantic's schema, its validation
-- of a text and `json.dumps` are arguments; a validation gives the parsed value or the text of its
-- error.
use dcops.Base.{ℕ, zero, suc, String, str_append, some, List, [], ◌∷◌, ◌++◌, codes}
use dcops.Base.Result.{Exc, Result, ok, err}
use dcops.Value.{Dict}
use dcops.Llm.Router.{LlmResult}
use dcops.Quality.Verifier.{Message, Request, Log, LlmRouter}
use dcops.Quality.Extract.{extract_json}

pub data Validated (T : Type 0) : Type 0 where
  valid : T → Validated T
  invalid : String → Validated T

-- How a call ends: with the parsed value and the answer it was in, with a `StructuredOutputError`
-- that holds the last text and error, or with an exception of the router.
pub data Structured (T : Type 0) : Type 0 where
  returned : T → LlmResult → Structured T
  structured_error : String → String → Structured T
  raised : Exc → Structured T

-- A Pydantic model class.
pub record Schema (T : Type 0) : Type 0 where
  pub json_schema : Dict
  pub model_validate_json : List ℕ → Validated T

abbrev pub schema_hint : (Dict → String) → Dict → String
schema_hint dumps json_schema =
    str_append
      "\n\nReturn ONLY a single JSON object matching this schema. Do not include prose, code fences, or explanation:\n"
      (dumps json_schema)

-- The messages of the next attempt.
abbrev pub correction : List Message → LlmResult → String → List Message
correction messages result exc =
    messages
    ++ record { role = "assistant"; content = result.text }
      ∷ record {
        role = "user";
        content =
            str_append "That response failed validation:\n"
              (str_append exc "\n\nReturn a corrected JSON object matching the schema exactly.");
      }
      ∷ []

module _ {F T : Type 0} (router : LlmRouter F) (dumps : Dict → String) (schema : Schema T)
    (task : Request F) where
  -- The arguments of one attempt.
  abbrev pub attempt_request : List Message → Request F
  attempt_request messages = record task {
    system = str_append task.system (schema_hint dumps schema.json_schema);
    messages = messages;
    response_format = some schema.json_schema;
  }

  -- What is done with an answer: `retry` has the text of its error.
  abbrev pub judged :
      LlmResult → Log F → (String → Structured T × Log F) → Validated T → Structured T × Log F
  judged result log retry (valid parsed) = (returned parsed result, log)
  judged result log retry (invalid exc) = retry exc

  abbrev pub attempted :
      Request F
      → Log F
      → (LlmResult → String → Log F → Structured T × Log F)
      → Result LlmResult
      → Structured T × Log F
  attempted q log retry (err e) = (raised e, log)
  attempted q log retry (ok result) =
      judged result ((q, result) ∷ log) (λ exc. retry result exc ((q, result) ∷ log))
        (schema.model_validate_json (extract_json (codes result.text)))

  -- The loop, with so many retries left.
  unfoldable pub attempts : ℕ → List Message → Log F → Structured T × Log F
  unfolding extract_json
  attempts zero messages log =
      let q = attempt_request messages in
      attempted q log (λ result exc log1. (structured_error result.text exc, log1)) (router log q)
  attempts (suc n) messages log =
      let q = attempt_request messages in
      attempted q log (λ result exc log1. attempts n (correction messages result exc) log1)
        (router log q)

  unfoldable pub call_structured : ℕ → Log F → Structured T × Log F
  unfolding attempts
  call_structured max_retries log = attempts max_retries task.messages log
