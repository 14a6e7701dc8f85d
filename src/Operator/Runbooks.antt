-- ===== src/Operator/Runbooks.antt =====
-- `_retrieve_runbooks` and `_build_context` of apps/agents/operator/main.py. The collection of
-- runbooks and the reranker are arguments, and so are the numbers' texts.
use dcops.Base.{ℕ, zero, suc, ◌+◌, String, str_append, Option, none, some, List, [], ◌∷◌}
use dcops.Base.Result.{Result, ok, err, index_error, ◌>>=◌}
use dcops.Value.{Value, str, Dict, get_or}
use dcops.Quality.Grounding.{join, canonical_metrics}

-- What a collection answers: lists for each of the query texts.
pub record Recall : Type 0 where
  pub ids : Option (List (List String))
  pub documents : Option (List (List String))
  pub metadatas : Option (List (List (Option Dict)))

pub record Source (F : Type 0) : Type 0 where
  pub id : Option String
  pub question : String
  pub sql_template : Value
  pub metrics : Value
  pub category : Value
  pub notes : Value
  pub score : F

-- `(recall.get(key) or [[]])[0]`
unfoldable pub first_of : {A : Type 0} → Option (List (List A)) → List A
first_of none = []
first_of (some []) = []
first_of (some (xs ∷ xss)) = xs

-- `xs[idx]`
unfoldable pub item : {A : Type 0} → List A → ℕ → Option A
item [] n = none
item (x ∷ xs) zero = some x
item (x ∷ xs) (suc n) = item xs n

-- `range(min(len(docs), top_k))`, from a start.
unfoldable pub first_indices : {F : Type 0} → F → ℕ → List String → ℕ → List (ℕ × F)
first_indices zero_score start docs zero = []
first_indices zero_score start [] (suc k) = []
first_indices zero_score start (d ∷ docs) (suc k) =
    (start, zero_score) ∷ first_indices zero_score (start + 1) docs k

-- `metas[idx] or {}`
abbrev meta_at : Option (Option Dict) → Result Dict
meta_at none = err index_error
meta_at (some none) = ok []
meta_at (some (some d)) = ok d

unfoldable pub catalog_lines : List String → List String
catalog_lines [] = []
catalog_lines (m ∷ ms) = str_append "  - " m ∷ catalog_lines ms

module _ {F : Type 0} where
  abbrev runbook : Option String → String → F → Dict → Source F
  runbook id doc score meta = record {
    id = id;
    question = doc;
    sql_template = get_or "sql_template" (str "") meta;
    metrics = get_or "metrics" (str "") meta;
    category = get_or "category" (str "") meta;
    notes = get_or "notes" (str "") meta;
    score = score;
  }

  -- The loop `for idx, score in ranked`.
  unfoldable pub collect :
      List String → List String → List (Option Dict) → List (ℕ × F) → Result (List (Source F))
  unfolding item
  collect ids docs metas [] = ok []
  collect ids docs metas ((idx, score) ∷ ranked) =
      let rest = collect ids docs metas ranked in
      elim (item docs idx) [
        | none ↦ rest
        | some doc ↦ do
          meta ← meta_at (item metas idx)
          out ← rest
          ok (runbook (item ids idx) doc score meta ∷ out)
      ]

  module _ (rerank : String → List String → ℕ → Result (List (ℕ × F))) (zero_score : F)
      (top_n top_k : ℕ) where
    -- The ranking, and the first documents when the reranker raised.
    unfoldable pub ranking : String → List String → List (ℕ × F)
    unfolding first_indices
    ranking question docs = elim (rerank question docs top_k) [
      | ok ranked ↦ ranked
      | err e ↦ first_indices zero_score 0 docs top_k
    ]

    abbrev recalled : String → Result Recall → Result (List (Source F))
    unfolding collect first_of ranking
    recalled question (err e) = ok []
    recalled question (ok recall) = elim (first_of recall.documents) [
      | [] ↦ ok []
      | d ∷ ds ↦
          collect (first_of recall.ids) (d ∷ ds) (first_of recall.metadatas)
            (ranking question (d ∷ ds))
    ]

    unfoldable pub retrieve_runbooks :
        Option (String → ℕ → Result Recall) → String → Result (List (Source F))
    unfolding recalled
    retrieve_runbooks none question = ok []
    retrieve_runbooks (some query) question = recalled question (query question top_n)

  module _ (show : ℕ → String) (show_value : Value → String) where
    -- The lines of the runbooks, counted from a number.
    unfoldable pub runbook_lines : ℕ → List (Source F) → List String
    runbook_lines n [] = []
    runbook_lines n (s ∷ sources) =
        str_append "  " (
          str_append (show n)
            (str_append ". " (str_append (show_value s.category) (str_append " — " s.question))))
        ∷ str_append "     SQL: " (show_value s.sql_template)
        ∷ str_append "     Notes: " (show_value s.notes)
        ∷ runbook_lines (n + 1) sources

    abbrev exemplars : List (Source F) → List String
    unfolding runbook_lines
    exemplars [] = []
    exemplars (s ∷ sources) =
        ""
        ∷ "Relevant runbook patterns (use as exemplars, adapt the placeholders):"
        ∷ runbook_lines 1 (s ∷ sources)

    unfoldable pub build_context : String → List (Source F) → String
    unfolding exemplars catalog_lines join
    build_context question sources = join "\n" (
        str_append "Question: " question
        ∷ ""
        ∷ "Canonical metric catalog (use only these names):"
        ∷ join "\n" (catalog_lines canonical_metrics)
        ∷ exemplars sources)
