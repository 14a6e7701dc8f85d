-- ===== src/Correlator/Publisher.antt =====
-- `run_correlator` of apps/control_plane/cross_site_correlator.py: the loop over the predictions,
-- and the candidates that it publishes. A failed publication is logged and skipped, so that a
-- candidate below is one that was sent or tried.
use dcops.Base.{
  ℕ, ◌+◌, ◌^◌, ◌==◌, ltb, str_append, String, false, Option, none, some, List, [], ◌∷◌, str_eq,
  if◌then◌else◌,
}
use dcops.Base.Int.{pos}
use dcops.Value.{Value, Dict, get_or}
use dcops.Correlator.Hits.{Config, Correlator, Ready, record_prediction, hit_count}

-- `RuleCandidate`, with the time of the prediction that caused it.
pub record Candidate : Type 0 where
  pub at : ℕ
  pub rule_id : String
  pub origin : String
  pub target : String
  pub failure_kind : String
  pub confidence : Value
  pub shadow_until : ℕ
  pub occurrence_count : ℕ
  pub sample_device_ids : List String

zero_float : Value
zero_float = Value.real false 0 0

one_float : Value
one_float = Value.real false 1 0

-- `min(1.0, max(0.0, float(x)))`. Nothing is above NaN, so that it becomes 0.
unfoldable pub clamp : Value → Value
unfolding zero_float one_float
clamp (Value.bool b) = if b then one_float else zero_float
clamp (Value.int (pos n)) = if n == 0 then zero_float else one_float
clamp (Value.real false m k) = if ltb m (2 ^ k) then Value.real false m k else one_float
clamp (Value.infinite false) = one_float
clamp _ = zero_float

-- `_build_candidate`, at the time `now` of the prediction.
unfoldable pub build_candidate : Config → ℕ → Ready → Value → ℕ → String → Candidate
unfolding clamp
build_candidate c now ready confidence count target = record {
  at = now;
  rule_id = str_append "rule-cs-" (str_append ready.0 (str_append "-" ready.1));
  origin = ready.0;
  target = target;
  failure_kind = ready.1;
  confidence = clamp confidence;
  shadow_until = now + c.shadow;
  occurrence_count = count;
  sample_device_ids = ready.2;
}

-- The loop over `_federation_sites()`: every site but the origin gets the candidate.
unfoldable pub fan_out :
    Config → ℕ → Ready → Value → ℕ → List String → List Candidate → List Candidate
unfolding build_candidate
fan_out c now ready confidence count [] sent = sent
fan_out c now ready confidence count (target ∷ targets) sent =
    fan_out c now ready confidence count targets (
      if str_eq target ready.0
      then sent
      else build_candidate c now ready confidence count target ∷ sent)

-- What a round does with the correlator's answer; `sent` holds the candidates, the latest first.
unfoldable pub propagate :
    Config → ℕ → Dict → Correlator → Option Ready → List Candidate → List Candidate
propagate c now event s none sent = sent
propagate c now event s (some ready) sent =
    fan_out c now ready (get_or "probability" (Value.real false 0 0) event)
      (hit_count s ready.0 ready.1) c.federation_sites sent

-- One round of the loop.
unfoldable pub round : Config → ℕ → Dict → Correlator × List Candidate → Correlator × List Candidate
unfolding propagate
round c now event (s, sent) =
    let (s', result) = record_prediction c now event s in (s', propagate c now event s' result sent)

-- The loop, over the events and the times at which they are recorded.
unfoldable pub run :
    Config → List (ℕ × Dict) → Correlator × List Candidate → Correlator × List Candidate
unfolding round
run c [] s = s
run c ((now, event) ∷ events) s = run c events (round c now event s)
