-- ===== src/Sentinel/Decision.antt =====
-- What apps/agents/sentinel/main.py decides about a device: `_decide`. A probability is never NaN:
-- the rules' are constants, and the model's is clamped.
use dcops.Base.{
  ℕ, String, Bool, ◌&&◌, Option, none, some, is_some, List, [], ◌∷◌, ltb, leb, if◌then◌else◌,
}
use dcops.Base.Result.{Result, ok, ◌>>=◌}
use dcops.Value.{Value, Dict, insert}
use dcops.Sentinel.Values.{Floats}
use dcops.Sentinel.Rules.{RuleHit, evaluate}

pub record Decision (F : Type 0) : Type 0 where
  pub source : String
  pub failure_kind : String
  pub probability : F
  pub horizon_hours : F
  pub evidence : Dict

-- What the code reads of `PredictedFailure`'s fields, without the timestamp.
pub record PredictedFailure (F : Type 0) : Type 0 where
  pub site_id : Value
  pub device_id : Value
  pub device_type : String
  pub failure_kind : String
  pub probability : F
  pub horizon_hours : F
  pub evidence : Dict
  pub source : String

-- The surroundings: Pydantic's validation, the reading of timestamps, the threshold, the window of
-- de-duplication (in the clock's units), the model's probability of the events (none without a
-- model), and the order of probabilities, by a number for each.
pub record Setting (F : Type 0) : Type 0 where
  pub floats : Floats F
  pub rank : F → ℕ
  pub threshold : F
  pub dedupe_window : ℕ
  pub model : Option (List Dict → F)
  pub site_id : String
  pub is_valid : PredictedFailure F → Bool
  pub parse : Option Value → Option ℕ
  pub max_age : ℕ

module _ {F : Type 0} (set : Setting F) where
  -- `max(hits, key=...)`: the first of the greatest.
  unfoldable pub best_of : RuleHit F → List (RuleHit F) → RuleHit F
  best_of best [] = best
  best_of best (h ∷ hits) =
      best_of (if ltb (set.rank best.probability) (set.rank h.probability) then h else best) hits

  abbrev pub best_hit : List (RuleHit F) → Option (RuleHit F)
  best_hit [] = none
  best_hit (h ∷ hits) = some (best_of h hits)

  abbrev pub score : Option (RuleHit F) → F
  score none = set.floats.decimal 0 0
  score (some h) = h.probability

  abbrev pub model_proba : List Dict → F
  model_proba events = elim set.model [
    | none ↦ set.floats.decimal 0 0
    | some predict ↦ predict events
  ]

  abbrev by_model : F → Decision F
  by_model p = record {
    source = "model";
    failure_kind = "model_predicted_failure";
    probability = p;
    horizon_hours = set.floats.decimal 24 0;
    evidence = ("model_probability", set.floats.to_value p) ∷ [];
  }

  abbrev by_rule : RuleHit F → F → Decision F
  by_rule h p = record {
    source = "rule";
    failure_kind = h.failure_kind;
    probability = h.probability;
    horizon_hours = h.horizon_hours;
    evidence = insert "rule_id" (Value.str h.rule_id) (
        if is_some set.model
        then insert "model_probability" (set.floats.to_value p) h.evidence
        else h.evidence);
  }

  abbrev pub rule_decision : Option (RuleHit F) → F → Option (Decision F)
  rule_decision none p = none
  rule_decision (some h) p =
      if leb (set.rank set.threshold) (set.rank h.probability) then some (by_rule h p) else none

  -- `_decide`, by the hits and the model's probability.
  unfoldable pub choose : List (RuleHit F) → F → Option (Decision F)
  unfolding best_of
  choose hits p =
      if ltb (set.rank (score (best_hit hits))) (set.rank p)
        && leb (set.rank set.threshold) (set.rank p)
      then some (by_model p)
      else rule_decision (best_hit hits) p

  unfoldable pub decide : List Dict → Result (Option (Decision F))
  unfolding choose evaluate
  decide events = do hits ← evaluate set.floats events; ok (choose hits (model_proba events))
