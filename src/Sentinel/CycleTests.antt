-- ===== src/Sentinel/CycleTests.antt =====
-- Runs of the rules and of the inference cycle, with hundredths for floats, and the theorems at
-- these inputs.
use dcops.Base.{
  ℕ, ◌+◌, ◌-◌, ◌*◌, ◌/◌, ◌^◌, ◌≡◌, refl, String, Option, none, some, true, List, [], ◌∷◌, length,
  ltb, leb,
}
use dcops.Base.Int.{pos}
use dcops.Base.Result.{Result, ok}
use dcops.Value.{Value, Dict}
use dcops.Sentinel.Window.{ingest, ingest_for, device_of, window_of, add, recent, evict_stale}
use dcops.Sentinel.Values.{Floats, for_metric, numbers, greatest, last_value, max_value, sum_value}
use dcops.Sentinel.Rules.{
  fatal_xid_of, rule_fatal_xid, rule_uncorrectable_ecc, rule_correctable_ecc_storm,
  rule_gpu_thermal_runaway, fan_stuck_of, rule_fan_stuck_hot_cpu, reallocated_of,
  rule_disk_reallocated_burst, psu_of, rule_psu_efficiency_drop, other_hits, evaluate,
}
use dcops.Sentinel.Decision.{Decision, Setting, best_of, choose, decide}
use dcops.Sentinel.Cycle.{
  Moment, Step, receives, infers, fresh_state, last_mark, set_mark, is_duplicate,
  classify_device_type, prediction, publish, act, score_events, infer_device, infer_batch, cycle,
  receive, run,
}
use dcops.Sentinel.Repeats.{Apart, run-Apart}

abbrev hundredths : Value → Option ℕ
hundredths (Value.int (pos n)) = some (n * 100)
hundredths v = none

abbrev sum : List ℕ → ℕ
sum [] = 0
sum (x ∷ xs) = x + sum xs

abbrev floats : Floats ℕ
floats = record {
  number = hundredths;
  truncate = λ x. ok (pos (x / 100));
  decimal = λ n k. n * 100 / 10 ^ k;
  less = ltb;
  at_most = leb;
  total = sum;
  minus = λ a b. a - b;
  over = λ a b. a * 100 / b;
  of_count = λ n. n * 100;
  to_value = λ x. Value.int (pos (x / 100));
}

abbrev clock : Option Value → Option ℕ
clock (some (Value.int (pos n))) = some n
clock _ = none

abbrev setting : Setting ℕ
setting = record {
  floats = floats;
  rank = λ x. x;
  threshold = 60;
  dedupe_window = 300;
  model = some (λ events. 80);
  site_id = "pune";
  is_valid = λ p. true;
  parse = clock;
  max_age = 1000;
}

abbrev sample : String → ℕ → ℕ → Dict
sample metric value t =
    ("device_id", Value.str "gpu1")
    ∷ ("device_type", Value.str "gpu")
    ∷ ("metric", Value.str metric)
    ∷ ("value", Value.int (pos value))
    ∷ ("timestamp", Value.int (pos t))
    ∷ []

abbrev hot : List Dict
hot = sample "gpu.temp.celsius" 95 10 ∷ []

abbrev failed : List Dict
failed = sample "gpu.xid.code" 13 10 ∷ sample "gpu.xid.code" 79 20 ∷ []

abbrev source_of : Result (Option (Decision ℕ)) → Option String
source_of (ok (some d)) = some d.source
source_of r = none

-- The model outweighs the rule on temperatures, and not the fatal code.
decided_on :
    (source_of (decide setting hot) ≡ some "model")
    × (source_of (decide setting failed) ≡ some "rule")
unfolding decide choose best_of evaluate other_hits rule_fatal_xid fatal_xid_of last_value
    for_metric numbers rule_uncorrectable_ecc rule_correctable_ecc_storm rule_gpu_thermal_runaway
    rule_fan_stuck_hot_cpu fan_stuck_of rule_disk_reallocated_burst reallocated_of
    rule_psu_efficiency_drop psu_of max_value sum_value greatest
decided_on = (refl, refl)

abbrev at_time : ℕ → Moment × String
at_time t = (record { now = t; checked = t; marked = t + 1; publish_ok = true }, "gpu1")

-- The second round comes too soon after the first one, and the third does not.
abbrev steps : List Step
steps =
    receives (sample "gpu.temp.celsius" 95 10)
    ∷ infers (at_time 20 ∷ [])
    ∷ receives (sample "gpu.temp.celsius" 96 30)
    ∷ infers (at_time 40 ∷ [])
    ∷ infers (at_time 400 ∷ [])
    ∷ []

two_sent : length (run setting 128 steps fresh_state).sent ≡ 2
unfolding run cycle receive infer_batch infer_device score_events act is_duplicate last_mark
    set_mark publish prediction classify_device_type ingest ingest_for device_of window_of add
    recent evict_stale decide choose best_of evaluate other_hits rule_fatal_xid fatal_xid_of
    last_value for_metric numbers rule_uncorrectable_ecc rule_correctable_ecc_storm
    rule_gpu_thermal_runaway rule_fan_stuck_hot_cpu fan_stuck_of rule_disk_reallocated_burst
    reallocated_of rule_psu_efficiency_drop psu_of max_value sum_value greatest
two_sent = refl

run-Apart_example : Apart 300 (run setting 128 steps fresh_state).entries
run-Apart_example = run-Apart setting 128 steps
