-- ===== src/Operator/Answer.antt =====
-- `OperatorAnswer` of apps/agents/shared/quality/schemas.py. Pydantic's own checks of the fields
-- and the text of its errors are arguments.
use dcops.Base.{ℕ, String, List, codes}
use dcops.Base.Result.{Exc, Result, ok, err}
use dcops.Quality.Structured.{Validated, valid, invalid}
use dcops.Store.Guard.{must_be_select}

pub record OperatorAnswer (F : Type 0) : Type 0 where
  pub answer_text : String
  pub sql : String
  pub referenced_metrics : List String
  pub confidence : F

module _ {F : Type 0} (parse : List ℕ → Validated (OperatorAnswer F)) (message : Exc → String) where
  abbrev pub sql_checked : OperatorAnswer F → Result (List ℕ) → Validated (OperatorAnswer F)
  sql_checked answer (ok v) = valid answer
  sql_checked answer (err e) = invalid (message e)

  abbrev pub fields_checked : Validated (OperatorAnswer F) → Validated (OperatorAnswer F)
  fields_checked (invalid exc) = invalid exc
  fields_checked (valid answer) = sql_checked answer (must_be_select (codes answer.sql))

  -- `OperatorAnswer.model_validate_json`
  unfoldable pub model_validate_json : List ℕ → Validated (OperatorAnswer F)
  model_validate_json text = fields_checked (parse text)
