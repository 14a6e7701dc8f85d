-- ===== src/Operator/Sound.antt =====
-- The answers of the Operator agent, apps/agents/operator/main.py, and the calls they take.
use dcops.Base.{
  ℕ, ◌+◌, ◌≤◌, ◌≡◌, refl, sym, ap, subst, ◌∙◌, ◌⊎◌, inl, inr, String, Option, none, some, List, [],
  ◌∷◌, ◌++◌, length, codes, length-append, append_assoc, if_both, arith,
}
use dcops.Base.Result.{Exc, Result, ok, err}
use dcops.Llm.Router.{LlmResult}
use dcops.Quality.Verifier.{Message, Log}
use dcops.Quality.Extract.{extract_json}
use dcops.Quality.Structured.{
  Validated, valid, invalid, Structured, returned, structured_error, raised,
}
use dcops.Quality.Retries.{EndsStructured, call_structured-Ends}
use dcops.Store.Guard.{must_be_select}
use dcops.Operator.Answer.{OperatorAnswer, sql_checked, fields_checked, model_validate_json}
use dcops.Operator.Runbooks.{Source, build_context}
use dcops.Operator.Agent.{
  Services, Answered, answered, gave_up, failed, answer_schema, answer_request, structured,
  grounding_messages, concluded, regrounded, grounded, asked, uncached, from_cache, answer,
}

-- The validator of the answer's schema accepts the query.
abbrev pub Accepted : {F : Type 0} → OperatorAnswer F → Type 0
Accepted a = (v : List ℕ) × (must_be_select (codes a.sql) ≡ ok v)

-- What a validation, a structured call and an answer to a question hold is accepted.
abbrev Validates : {F : Type 0} → Validated (OperatorAnswer F) → Type 0
Validates (valid a) = Accepted a
Validates (invalid exc) = Unit

abbrev Returns : {F : Type 0} → Structured (OperatorAnswer F) → Type 0
Returns (returned a result) = Accepted a
Returns s = Unit

module _ {F : Type 0} (parse : List ℕ → Validated (OperatorAnswer F)) (message : Exc → String) where
  sql_checked-Validates :
      (a : OperatorAnswer F) (r : Result (List ℕ))
      → must_be_select (codes a.sql) ≡ r
      → Validates (sql_checked parse message a r)
  sql_checked-Validates a (ok v) e = (v, e)
  sql_checked-Validates a (err x) e = tt

  fields_checked-Validates :
      (v : Validated (OperatorAnswer F)) → Validates (fields_checked parse message v)
  fields_checked-Validates (valid a) = sql_checked-Validates a (must_be_select (codes a.sql)) refl
  fields_checked-Validates (invalid exc) = tt

  model_validate_json-Validates : (s : List ℕ) → Validates (model_validate_json parse message s)
  unfolding model_validate_json
  model_validate_json-Validates s = fields_checked-Validates (parse s)

-- A log after so many calls at most since another.
abbrev pub Within : {F : Type 0} → ℕ → Log F → Log F → Type 0
Within {F} n before log = (calls : Log F) × (log ≡ calls ++ before) × (length calls ≤ n)

Within-mono :
    {F : Type 0} {n m : ℕ} {before log : Log F} → Within n before log → n ≤ m → Within m before log
Within-mono (calls, e, few) h = (calls, e, omega arith)

Within-trans :
    {F : Type 0} {n m : ℕ} {before middle log : Log F}
    → Within n before middle
    → Within m middle log
    → Within (n + m) before log
Within-trans {before = before} (calls, e, few) (more, e1, few1) = (
  more ++ calls,
  e1 ∙ ap (λ (l : Log _). more ++ l) e ∙ sym (append_assoc more calls before),
  omega (arith, length-append more calls),
)

module _ {U F D : Type 0} (services : Services U F D) where
  ends-Sound :
      (n : ℕ) (before calls : Log F) (s : Structured (OperatorAnswer F))
      → EndsStructured (answer_schema services) services.router before n s calls
      → Returns s × (length calls ≤ n)
  ends-Sound n before calls (returned a result) (q, older, e, v, rejected, few) = (
    subst Validates v (
        model_validate_json-Validates services.parse services.message
          (extract_json (codes result.text))),
    few,
  )
  ends-Sound n before calls (structured_error last exc) (q, result, older, e, t, v, rejected, few) =
      (tt, ground (arith, few))
  ends-Sound n before calls (raised x) (q, e, rejected, few) = (tt, omega arith)

  -- A structured call that began after `before`.
  abbrev Sound : ℕ → Log F → Structured (OperatorAnswer F) × Log F → Type 0
  Sound n before run = Returns run.0 × Within n before run.1

  structured-Sound :
      (n : ℕ) (messages : List Message) (before : Log F)
      → Sound (n + 1) before (structured services n messages before)
  structured-Sound n messages before =
      let (calls, e, ends) =
        call_structured-Ends (answer_schema services) services.router services.dumps
          (answer_request services messages) before n in
      let (sound, few) = ends-Sound (n + 1) before calls _ ends in (sound, (calls, e, few))

  regrounded-Sound :
      (n : ℕ) (before : Log F) (messages : List Message) (a : OperatorAnswer F) (result : LlmResult)
      (log : Log F) (unknown : List String)
      → Sound n before (returned a result, log)
      → Sound (n + 2) before (regrounded services messages a result log unknown)
  regrounded-Sound n before messages a result log [] (good, within) =
      (good, Within-mono within (omega arith))
  regrounded-Sound n before messages a result log (u ∷ us) (good, within) =
      let (good1, within1) =
        structured-Sound 1 (grounding_messages services messages a (u ∷ us)) log in
      (good1, Within-trans within within1)

  grounded-Sound :
      (n : ℕ) (before : Log F) (messages : List Message)
      (run : Structured (OperatorAnswer F) × Log F)
      → Sound n before run
      → Sound (n + 2) before (grounded services messages run)
  grounded-Sound n before messages (returned a result, log) sound =
      regrounded-Sound n before messages a result log _ sound
  grounded-Sound n before messages (structured_error last exc, log) (good, within) =
      (tt, Within-mono within (omega arith))
  grounded-Sound n before messages (raised e, log) (good, within) =
      (tt, Within-mono within (omega arith))

  -- An answer is accepted, and the entry for the cache is one for it; without an answer there is
  -- none.
  abbrev pub Concludes : ℕ → Log F → String → Answered F × Log F × List (String × String) → Type 0
  Concludes n before question (answered a sources, log, puts) =
      Accepted a
      × ((puts ≡ []) ⊎ (puts ≡ (question, services.dump_answer a) ∷ []))
      × Within n before log
  Concludes n before question (gave_up, log, puts) = (puts ≡ []) × Within n before log
  Concludes n before question (failed e, log, puts) = (puts ≡ []) × Within n before log

  concluded-Concludes :
      (n : ℕ) (before : Log F) (question : String) (sources : List (Source F))
      (run : Structured (OperatorAnswer F) × Log F)
      → Sound n before run
      → Concludes n before question (concluded services question sources run)
  concluded-Concludes n before question sources (returned a result, log) (good, within) = (
    good,
    if_both
        (λ (puts : List (String × String)).
          (puts ≡ []) ⊎ (puts ≡ (question, services.dump_answer a) ∷ []))
        services.cache_enabled (λ e. inr refl) (λ e. inl refl),
    within,
  )
  concluded-Concludes n before question sources (structured_error last exc, log) (good, within) =
      (refl, within)
  concluded-Concludes n before question sources (raised e, log) (good, within) = (refl, within)

  asked-Concludes :
      (question : String) (log : Log F) (r : Result (List (Source F)))
      → Concludes 5 log question (asked services question log r)
  asked-Concludes question log (err e) = (refl, ([], refl, omega arith))
  asked-Concludes question log (ok sources) =
      let messages : List Message =
        record {
          role = "user";
          content = build_context services.show services.show_value question sources;
        }
        ∷ [] in
      concluded-Concludes 5 log question sources _
        (grounded-Sound 3 log messages _ (structured-Sound 2 messages log))

  uncached-Concludes :
      (question : String) (log : Log F) → Concludes 5 log question (uncached services question log)
  uncached-Concludes question log = asked-Concludes question log _

  from_cache-Concludes :
      (question : String) (log : Log F) (v : Validated (OperatorAnswer F))
      → Validates v
      → Concludes 5 log question (from_cache services question log (some v))
  from_cache-Concludes question log (valid a) good = (good, inl refl, ([], refl, omega arith))
  from_cache-Concludes question log (invalid exc) good = uncached-Concludes question log

  cached-Concludes :
      (question : String) (log : Log F) (cached : Option String)
      → Concludes 5 log question (
          from_cache services question log (elim cached [
            | none ↦ none
            | some text ↦ some ((answer_schema services).model_validate_json (codes text))
          ]))
  cached-Concludes question log none = uncached-Concludes question log
  cached-Concludes question log (some text) =
      from_cache-Concludes question log _
        (model_validate_json-Validates services.parse services.message (codes text))

  pub answer-Concludes :
      (question : String) (log : Log F) → Concludes 5 log question (answer services question log)
  unfolding answer
  answer-Concludes question log = cached-Concludes question log (services.cache_get question)
