-- ===== src/Quality/CallTests.antt =====
-- Structured calls and the extraction of an object at concrete inputs, and the theorems at these.
use dcops.Base.{
  ℕ, ◌≡◌, refl, String, false, none, List, [], ◌∷◌, ◌++◌, length, codes, ltb, ◌==◌, if◌then◌else◌,
}
use dcops.Base.Result.{ok, err, runtime_error}
use dcops.Value.{Dict}
use dcops.Llm.Router.{haiku, rca, LlmResult}
use dcops.Quality.Verifier.{Request, Log, LlmRouter}
use dcops.Quality.Extract.{
  extract_json, unfenced, outermost, find, rfind, after_line, without_fence,
}
use dcops.Quality.Object.{braced, extract_json-object}
use dcops.Quality.Structured.{
  Validated, valid, invalid, returned, structured_error, raised, Schema, call_structured, attempts,
}
use dcops.Quality.Retries.{EndsStructured, call_structured-Ends}

abbrev says : String → LlmResult
says text = record {
  text = text;
  model_used = "m";
  tier_used = haiku;
  tokens_in = 1;
  tokens_out = 1;
  usd_cost = 0;
  latency_ms = 1;
  escalated = false;
  downgraded = false;
}

-- An object comes with the second answer; a fourth call is refused.
abbrev router : LlmRouter ℕ
router log q =
    if ltb (length log) 1
    then ok (says "It is the fan.")
    else if ltb (length log) 3
    then ok (says "```json\n{\"cause\": \"fan\"}\n```")
    else err runtime_error

-- A schema of texts that begin with a brace.
abbrev starts_object : List ℕ → Validated (List ℕ)
starts_object (c ∷ s) = if c == b'{' then valid (c ∷ s) else invalid "no object"
starts_object [] = invalid "no text"

abbrev schema : Schema (List ℕ)
schema = record { json_schema = []; model_validate_json = starts_object }

abbrev never : Schema (List ℕ)
never = record { json_schema = []; model_validate_json = λ s. invalid "never" }

abbrev task : Request ℕ
task = record {
  task_class = rca;
  system = "s";
  messages = [];
  max_tokens = 1024;
  force_tier = none;
  temperature = none;
  response_format = none;
}

abbrev dumps : Dict → String
dumps d = "{}"

recovered :
    (call_structured router dumps schema task 2 []).0
    ≡ returned (codes "{\"cause\": \"fan\"}") (says "```json\n{\"cause\": \"fan\"}\n```")
unfolding call_structured attempts extract_json unfenced outermost find rfind after_line
    without_fence
recovered = refl

given_up :
    ((call_structured router dumps never task 1 []).0
      ≡ structured_error "```json\n{\"cause\": \"fan\"}\n```" "never")
    × ((call_structured router dumps never task 5 []).0 ≡ raised runtime_error)
unfolding call_structured attempts
given_up = (refl, refl)

call_structured-Ends_example :
    (calls : Log ℕ) × ((call_structured router dumps schema task 2 []).1 ≡ calls ++ [])
    × EndsStructured schema router [] 3 (call_structured router dumps schema task 2 []).0 calls
call_structured-Ends_example = call_structured-Ends schema router dumps task [] 2

extract_json-object_example :
    extract_json (codes " So: " ++ (braced (codes "\"cause\": {}") ++ codes ". "))
    ≡ codes "{\"cause\": {}}"
extract_json-object_example =
    extract_json-object (codes " So: ") (codes "\"cause\": {}") (codes ". ")
      (refl, (refl, (refl, (refl, (refl, tt))))) (refl, (refl, tt)) refl
