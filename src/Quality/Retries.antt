-- ===== src/Quality/Retries.antt =====
-- The calls of `call_structured` in apps/agents/shared/quality/structured.py.
use dcops.Base.{
  ℕ, zero, suc, ◌+◌, ◌≤◌, ◌≡◌, refl, subst, String, List, [], ◌∷◌, ◌++◌, All, length, codes, arith,
}
use dcops.Base.Result.{Result, ok, err}
use dcops.Value.{Dict}
use dcops.Llm.Router.{LlmResult}
use dcops.Quality.Verifier.{Message, Request, Log, LlmRouter}
use dcops.Quality.Extract.{extract_json}
use dcops.Quality.Structured.{
  Validated, valid, invalid, Structured, returned, structured_error, raised, Schema, correction,
  attempt_request, judged, attempted, attempts, call_structured,
}

-- What the schema says of an answer.
abbrev pub verdict : {T : Type 0} → Schema T → LlmResult → Validated T
verdict schema result = schema.model_validate_json (extract_json (codes result.text))

module _ {F T : Type 0} (schema : Schema T) where
  abbrev pub Rejected : Request F × LlmResult → Type 0
  Rejected call = (exc : String) × (verdict schema call.1 ≡ invalid exc)

  -- How `call_structured` may end, by the calls since it began, the latest first: with the value
  -- that the latest answer holds, after answers that were rejected; with the text and the error of
  -- the latest answer, when all of the attempts were made and rejected; or with the exception that
  -- the router raised in a further attempt.
  abbrev pub EndsStructured : LlmRouter F → Log F → ℕ → Structured T → Log F → Type 0
  EndsStructured router before most (returned parsed result) calls =
      (q : Request F) × (older : Log F) × (calls ≡ (q, result) ∷ older)
      × (verdict schema result ≡ valid parsed)
      × All Rejected older
      × (length calls ≤ most)
  EndsStructured router before most (structured_error text exc) calls =
      (q : Request F) × (result : LlmResult) × (older : Log F) × (calls ≡ (q, result) ∷ older)
      × (result.text ≡ text)
      × (verdict schema result ≡ invalid exc)
      × All Rejected older
      × (length calls ≡ most)
  EndsStructured router before most (raised e) calls =
      (q : Request F) × (router (calls ++ before) q ≡ err e)
      × All Rejected calls
      × (length calls + 1 ≤ most)

  module _ (router : LlmRouter F) (dumps : Dict → String) (task : Request F) (before : Log F) where
    -- A run that began after `before` ends so, its log being what came before it and its calls.
    abbrev Ending : ℕ → Structured T × Log F → Type 0
    Ending most run =
        (calls : Log F) × (run.1 ≡ calls ++ before) × EndsStructured router before most run.0 calls

    judged-Ending :
        (most : ℕ) (q : Request F) (result : LlmResult) (older : Log F)
        (retry : String → Structured T × Log F)
        → All Rejected older
        → length older + 1 ≤ most
        → ((exc : String) → verdict schema result ≡ invalid exc → Ending most (retry exc))
        → (v : Validated T) → verdict schema result ≡ v
        → Ending most
            (judged router dumps schema task result (((q, result) ∷ older) ++ before) retry v)
    judged-Ending most q result older retry rejected few next (valid parsed) e =
        ((q, result) ∷ older, refl, (q, older, refl, e, rejected, omega arith))
    judged-Ending most q result older retry rejected few next (invalid exc) e = next exc e

    attempted-Ending :
        (most : ℕ) (q : Request F) (older : Log F)
        (retry : LlmResult → String → Log F → Structured T × Log F)
        → All Rejected older
        → length older + 1 ≤ most
        → ((result : LlmResult) (exc : String)
            → verdict schema result ≡ invalid exc
            → Ending most (retry result exc (((q, result) ∷ older) ++ before)))
        → (r : Result LlmResult) → router (older ++ before) q ≡ r
        → Ending most (attempted router dumps schema task q (older ++ before) retry r)
    attempted-Ending most q older retry rejected few next (err e) h =
        (older, refl, (q, h, rejected, few))
    attempted-Ending most q older retry rejected few next (ok result) h =
        judged-Ending most q result older
          (λ (exc : String). retry result exc (((q, result) ∷ older) ++ before)) rejected few
          (next result) (verdict schema result) refl

    attempts-Ending :
        (n : ℕ) (messages : List Message) (older : Log F)
        → All Rejected older
        → Ending
            (length older + (n + 1))
            (attempts router dumps schema task n messages (older ++ before))
    unfolding attempts
    attempts-Ending zero messages older rejected =
        let q = attempt_request router dumps schema task messages in
        attempted-Ending (length older + 1) q older
          (λ result exc log1. (structured_error result.text exc, log1)) rejected (omega arith)
          (λ result exc e.
            ((q, result) ∷ older, refl, (q, result, older, refl, refl, e, rejected, omega arith)))
          (router (older ++ before) q) refl
    attempts-Ending (suc n) messages older rejected =
        let q = attempt_request router dumps schema task messages in
        attempted-Ending (length older + (suc n + 1)) q older
          (λ result exc log1.
            attempts router dumps schema task n (correction messages result exc) log1)
          rejected (omega arith)
          (λ result exc e.
            subst
              (λ (most : ℕ). Ending most (
                attempts router dumps schema task n (correction messages result exc)
                  (((q, result) ∷ older) ++ before)))
              (omega arith)
              (attempts-Ending n (correction messages result exc) ((q, result) ∷ older)
                ((exc, e), rejected)))
          (router (older ++ before) q) refl

    -- `call_structured` makes `max_retries` + 1 calls at most, of which all but the latest were
    -- answered with texts that the schema rejects, and ends in one of three ways: it returns the
    -- value that the latest answer holds by the schema; it raises `StructuredOutputError` with the
    -- text and the error of the latest answer, after exactly so many calls; or it raises what the
    -- router raised.
    pub call_structured-Ends :
        (max_retries : ℕ)
        → (calls : Log F) × ((call_structured router dumps schema task max_retries before).1
            ≡ calls ++ before)
          × EndsStructured router before
              (max_retries + 1)
              (call_structured router dumps schema task max_retries before).0
              calls
    unfolding call_structured
    call_structured-Ends max_retries =
        subst
          (λ (most : ℕ).
            Ending most (attempts router dumps schema task max_retries task.messages before))
          (omega arith) (attempts-Ending max_retries task.messages [] tt)
