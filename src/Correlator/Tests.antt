-- ===== src/Correlator/Tests.antt =====
-- Runs of the correlator, and the theorems at these inputs.
use mathlib.Core.List.{Memᴰ}
use dcops.Base.{ℕ, ◌≡◌, refl, List, [], ◌∷◌, arith, map, String, false}
use dcops.Value.{Value, Dict}
use dcops.Correlator.Hits.{
  Config, fresh_correlator, reaches_floor, purge_old, ready_targets, record_hit, record_fields,
  record_prediction,
}
use dcops.Correlator.Publisher.{Candidate, build_candidate, fan_out, propagate, round, run}
use dcops.Correlator.Cooldown.{Spaced, run-Spaced}
use dcops.Correlator.Window.{within}
use dcops.Correlator.Record.{accepted, last_ts, run-hits}

-- Two hits within 100 and a cooldown of 50; the floor is 3/4.
abbrev settings : Config
settings = record {
  propagation_threshold = 2;
  floor_m = 3;
  floor_k = 2;
  window = 100;
  shadow = 1000;
  cooldown = 50;
  federation_sites = "mumbai" ∷ "frankfurt" ∷ "singapore" ∷ [];
}

abbrev prediction : String → Dict
prediction device =
    ("site_id", Value.str "mumbai")
    ∷ ("failure_kind", Value.str "fan")
    ∷ ("probability", Value.real false 7 3)
    ∷ ("device_id", Value.str device)
    ∷ []

-- The third prediction falls into the cooldown.
abbrev predictions : List (ℕ × Dict)
predictions =
    (200, prediction "a")
    ∷ (210, prediction "b")
    ∷ (220, prediction "a")
    ∷ (270, prediction "a")
    ∷ []

abbrev summary : Candidate → ℕ × String × ℕ
summary y = (y.at, y.target, y.occurrence_count)

sent_to_all :
    map summary (run settings predictions (fresh_correlator, [])).1
    ≡ (270, "singapore", 4)
      ∷ (270, "frankfurt", 4)
      ∷ (210, "singapore", 2)
      ∷ (210, "frankfurt", 2)
      ∷ []
unfolding run round propagate fan_out build_candidate record_prediction record_fields record_hit
    reaches_floor purge_old ready_targets
sent_to_all = refl

run-Spaced_example : Spaced settings (run settings predictions (fresh_correlator, [])).1
run-Spaced_example = run-Spaced settings predictions (refl, (refl, (refl, tt)))

run-hits_example :
    (run settings predictions (fresh_correlator, [])).0.hits "mumbai" "fan"
    ≡ within 100
        (last_ts 0 (accepted settings "mumbai" "fan" predictions))
        (accepted settings "mumbai" "fan" predictions)
run-hits_example =
    run-hits settings "mumbai" "fan" predictions
      (omega arith, (omega arith, (omega arith, (omega arith, tt))))

abbrev latest : Candidate
latest = record {
  at = 270;
  rule_id = "rule-cs-mumbai-fan";
  origin = "mumbai";
  target = "singapore";
  failure_kind = "fan";
  confidence = Value.real false 7 3;
  shadow_until = 1270;
  occurrence_count = 4;
  sample_device_ids = "a" ∷ "b" ∷ [];
}

latest_sent : Memᴰ latest (run settings predictions (fresh_correlator, [])).1
unfolding run round propagate fan_out build_candidate record_prediction record_fields record_hit
    reaches_floor purge_old ready_targets
latest_sent = Memᴰ.head refl
