-- ===== src/Sentinel/Rules.antt =====
-- The rules of apps/agents/sentinel/rules.py, on the events that are recent in a window.
use Prim.Native.Nat.{min}
use dcops.Base.{
  drop, ℕ, ◌-◌, String, Bool, false, ◌&&◌, Option, none, some, List, [], ◌∷◌, length, any, ltb,
  ◌==◌, if◌then◌else◌,
}
use dcops.Base.Int.{ℤ, pos, negsuc}
use dcops.Base.Result.{Result, ok, ◌>>=◌}
use dcops.Value.{Value, Dict}
use dcops.Sentinel.Values.{Floats, for_metric, last_of, numbers, last_value, max_value, sum_value}

pub record RuleHit (F : Type 0) : Type 0 where
  pub rule_id : String
  pub failure_kind : String
  pub probability : F
  pub horizon_hours : F
  pub evidence : Dict

abbrev fatal_xid_codes : List ℕ
fatal_xid_codes = 43 ∷ 44 ∷ 45 ∷ 48 ∷ 63 ∷ 64 ∷ 79 ∷ 92 ∷ []

abbrev pub is_fatal : ℤ → Bool
is_fatal (pos n) = any (λ c. c == n) fatal_xid_codes
is_fatal (negsuc n) = false

module _ {F : Type 0} (floats : Floats F) where
  open floats use {number, truncate, decimal, less, at_most, total, minus, over, of_count, to_value}

  abbrev pub fatal_xid_hit : ℤ → RuleHit F
  fatal_xid_hit code = record {
    rule_id = "gpu_fatal_xid";
    failure_kind = "gpu_fatal_xid";
    probability = decimal 98 2;
    horizon_hours = decimal 1 0;
    evidence = ("xid_code", Value.int code) ∷ [];
  }

  -- `_rule_fatal_xid`, by the last code; `int(xid)` raises on NaN and on infinity.
  unfoldable pub fatal_xid_of : Option F → Result (Option (RuleHit F))
  fatal_xid_of none = ok none
  fatal_xid_of (some xid) = do
    code ← truncate xid
    ok (if is_fatal code then some (fatal_xid_hit code) else none)

  unfoldable pub rule_fatal_xid : List Dict → Result (Option (RuleHit F))
  unfolding last_value fatal_xid_of
  rule_fatal_xid rows = fatal_xid_of (last_value floats rows "gpu.xid.code")

  unfoldable pub rule_uncorrectable_ecc : List Dict → Option (RuleHit F)
  unfolding max_value
  rule_uncorrectable_ecc rows = elim (max_value floats rows "gpu.ecc.uncorrectable") [
    | none ↦ none
    | some uncorr ↦
        if at_most uncorr (decimal 0 0)
        then none
        else some (record {
          rule_id = "gpu_uncorrectable_ecc";
          failure_kind = "gpu_ecc_runaway";
          probability = decimal 9 1;
          horizon_hours = decimal 6 0;
          evidence = ("max_uncorrectable_ecc", to_value uncorr) ∷ [];
        })
  ]

  unfoldable pub rule_correctable_ecc_storm : List Dict → Option (RuleHit F)
  unfolding sum_value
  rule_correctable_ecc_storm rows =
      let total_errors = sum_value floats rows "gpu.ecc.correctable" in
      if less total_errors (decimal 10000 0)
      then none
      else some (record {
        rule_id = "gpu_correctable_ecc_storm";
        failure_kind = "gpu_ecc_drift";
        probability = decimal 75 2;
        horizon_hours = decimal 24 0;
        evidence = ("correctable_ecc_window_total", to_value total_errors) ∷ [];
      })

  unfoldable pub rule_gpu_thermal_runaway : List Dict → Option (RuleHit F)
  unfolding max_value
  rule_gpu_thermal_runaway rows = elim (max_value floats rows "gpu.temp.celsius") [
    | none ↦ none
    | some peak ↦
        if less peak (decimal 90 0)
        then none
        else some (record {
          rule_id = "gpu_thermal_runaway";
          failure_kind = "gpu_thermal";
          probability = decimal 7 1;
          horizon_hours = decimal 2 0;
          evidence = ("max_gpu_temp_c", to_value peak) ∷ [];
        })
  ]

  unfoldable pub fan_stuck_of : Option F → Option F → Option (RuleHit F)
  fan_stuck_of (some fan) (some cpu) =
      if at_most fan (decimal 1 0) && at_most (decimal 80 0) cpu
      then some (record {
        rule_id = "fan_stuck_hot_cpu";
        failure_kind = "thermal_cascade";
        probability = decimal 85 2;
        horizon_hours = decimal 1 0;
        evidence = ("fan_rpm", to_value fan) ∷ ("max_cpu_temp_c", to_value cpu) ∷ [];
      })
      else none
  fan_stuck_of fan cpu = none

  unfoldable pub rule_fan_stuck_hot_cpu : List Dict → Option (RuleHit F)
  unfolding fan_stuck_of last_value max_value
  rule_fan_stuck_hot_cpu rows =
      fan_stuck_of (last_value floats rows "fan.rpm") (max_value floats rows "cpu.temp.celsius")

  -- `nums[-1] - nums[0]`, for two numbers or more.
  unfoldable pub reallocated_of : List F → Option (RuleHit F)
  reallocated_of (first ∷ x ∷ xs) = elim (last_of (x ∷ xs)) [
    | none ↦ none
    | some current ↦
        let delta = minus current first in
        if less delta (decimal 50 0)
        then none
        else some (record {
          rule_id = "disk_reallocated_burst";
          failure_kind = "disk_smart_drift";
          probability = decimal 65 2;
          horizon_hours = decimal 48 0;
          evidence = ("reallocated_delta", to_value delta) ∷ ("current", to_value current) ∷ [];
        })
  ]
  reallocated_of nums = none

  unfoldable pub rule_disk_reallocated_burst : List Dict → Option (RuleHit F)
  unfolding reallocated_of for_metric numbers
  rule_disk_reallocated_burst rows =
      let own = for_metric "disk.reallocated.sectors" rows in
      if ltb (length own) 2 then none else reallocated_of (numbers floats own)

  unfoldable pub psu_of : List F → Option (RuleHit F)
  psu_of [] = none
  psu_of (x ∷ xs) =
      let nums = x ∷ xs in
      let recent_avg =
        over (total (drop (length nums - 5) nums)) (of_count (min 5 (length nums))) in
      if at_most (decimal 85 0) recent_avg
      then none
      else some (record {
        rule_id = "psu_efficiency_drop";
        failure_kind = "psu_efficiency_drift";
        probability = decimal 6 1;
        horizon_hours = decimal 72 0;
        evidence = ("recent_avg_efficiency_pct", to_value recent_avg) ∷ [];
      })

  unfoldable pub rule_psu_efficiency_drop : List Dict → Option (RuleHit F)
  unfolding psu_of for_metric numbers
  rule_psu_efficiency_drop rows =
      let own = for_metric "psu.efficiency.percent" rows in
      if ltb (length own) 5 then none else psu_of (numbers floats own)

  -- A hit in front of the hits of the rules that follow.
  abbrev pub and_hit : Option (RuleHit F) → List (RuleHit F) → List (RuleHit F)
  and_hit none hits = hits
  and_hit (some hit) hits = hit ∷ hits

  -- The rules after the first, which never raise.
  unfoldable pub other_hits : List Dict → List (RuleHit F)
  unfolding rule_uncorrectable_ecc rule_correctable_ecc_storm rule_gpu_thermal_runaway
      rule_fan_stuck_hot_cpu rule_disk_reallocated_burst rule_psu_efficiency_drop
  other_hits rows = and_hit (rule_uncorrectable_ecc rows) (
      and_hit (rule_correctable_ecc_storm rows) (
        and_hit (rule_gpu_thermal_runaway rows) (
          and_hit (rule_fan_stuck_hot_cpu rows) (
            and_hit (rule_disk_reallocated_burst rows)
              (and_hit (rule_psu_efficiency_drop rows) [])))))

  unfoldable pub evaluate : List Dict → Result (List (RuleHit F))
  unfolding rule_fatal_xid other_hits
  evaluate rows = do xid ← rule_fatal_xid rows; ok (and_hit xid (other_hits rows))
