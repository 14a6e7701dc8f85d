-- ===== src/Policy/Rules.antt =====
-- The evaluators of each policy kind in apps/control_plane/policy_engine.py.
use dcops.Base.{
  ℕ, String, Bool, true, false, ◌&&◌, ◌||◌, Option, none, some, List, str_eq, length, ltb,
  if◌then◌else◌,
}
use dcops.Base.Int.{ℤ, pos, ltb_ℤ, leb_ℤ, ◌+ℤ◌, mod24}
use dcops.Base.Result.{Result, ok, ◌>>=◌}
use dcops.Value.{Value, nil, get_or, truthy, to_int, to_set, excludes, is_text, to_dict}
use dcops.Events.{Recommendation}

pub data Decision : Type 0 where
  approved denied needs_human : Decision

-- `id` and `kind` come from YAML as they are.
pub record Policy : Type 0 where
  pub id : Value
  pub kind : Value
  pub parameters : Value
  pub applies_to_sites : List Value

-- What the reason texts are built from.
pub data Reason : Type 0 where
  blast_radius : ℕ → ℤ → Reason
  in_blackout : ℤ → ℤ → ℕ → Reason
  in_freeze : Reason
  custom_matched : Value → Reason

abbrev pub Verdict : Type 0
Verdict = Decision × Option Reason

-- What the engine takes from Python's `re` and `eval`: the groups `cond` and `verdict` of a match
-- of the custom rule's pattern, the second in lower case; the truth of `eval` of a condition over
-- the recommendation, `none` where it raises; and `str` of a value that is no text.
pub record RuleLanguage : Type 0 where
  pub match_rule : String → Option (String × String)
  pub eval_condition : String → Recommendation → Option Bool
  pub text_of : Value → String

-- `p.parameters.get(key, default)`: only a mapping has `get`.
unfoldable pub parameter : String → Value → Policy → Result Value
parameter key default p = do params ← to_dict p.parameters; ok (get_or key default params)

-- `_eval_blast_radius`
unfoldable pub eval_blast_radius : Policy → Recommendation → Result Verdict
unfolding parameter
eval_blast_radius p rec = do
  cap ← to_int (← parameter "max_devices_per_action" (Value.int (pos 8)) p)
  let n = length rec.target_device_ids
  if ltb_ℤ cap (pos n)
      then ok (Decision.needs_human, some (Reason.blast_radius n cap))
      else ok (Decision.approved, none)

-- The test `in_window`, over the hours of a day.
unfoldable pub in_window : ℤ → ℤ → ℕ → Bool
in_window start_h end_h local_hour =
    if ltb_ℤ end_h start_h
    then leb_ℤ start_h (pos local_hour) && ltb local_hour 24 || ltb_ℤ (pos local_hour) end_h
    else leb_ℤ start_h (pos local_hour) && ltb_ℤ (pos local_hour) end_h

-- `_eval_blackout_window`, at the hour of `now` in UTC.
unfoldable pub eval_blackout_window : Policy → Recommendation → ℕ → Result Verdict
unfolding parameter in_window
eval_blackout_window p rec utc_hour = do
  applies_to_kinds ← to_set (← parameter "applies_to_kinds" (Value.seq nil) p)
  if excludes rec.kind applies_to_kinds then ok (Decision.approved, none) else do
    start_h ← to_int (← parameter "local_start_hour" (Value.int (pos 22)) p)
    end_h ← to_int (← parameter "local_end_hour" (Value.int (pos 6)) p)
    offset_h ← to_int (← parameter "tz_offset_hours" (Value.int (pos 0)) p)
    let local_hour = mod24 (pos utc_hour +ℤ offset_h)
    if in_window start_h end_h local_hour
        then ok (Decision.denied, some (Reason.in_blackout start_h end_h local_hour))
        else ok (Decision.approved, none)

-- `_eval_change_freeze`
unfoldable pub eval_change_freeze : Policy → Result Verdict
unfolding parameter
eval_change_freeze p = do
  enabled ← parameter "enabled" (Value.bool false) p
  if truthy enabled
      then ok (Decision.denied, some Reason.in_freeze)
      else ok (Decision.approved, none)

-- The verdict word of a custom rule.
abbrev custom_verdict : Policy → String → Verdict
custom_verdict p verdict =
    if str_eq verdict "denied"
    then (Decision.denied, some (Reason.custom_matched p.id))
    else if str_eq verdict "needs_human"
    then (Decision.needs_human, some (Reason.custom_matched p.id))
    else (Decision.approved, none)

-- `str(rule)`
abbrev rule_text : RuleLanguage → Value → String
rule_text lang (Value.str s) = s
rule_text lang v = lang.text_of v

-- `_eval_custom` after the parameter is read.
abbrev run_custom : RuleLanguage → Policy → Recommendation → String → Verdict
run_custom lang p rec rule = elim (lang.match_rule rule) [
  | none ↦ (Decision.approved, none)
  | some (cond_src, verdict) ↦ elim (lang.eval_condition cond_src rec) [
    | none ↦ (Decision.approved, none)
    | some false ↦ (Decision.approved, none)
    | some true ↦ custom_verdict p verdict
  ]
]

-- `_eval_custom`
unfoldable pub eval_custom : RuleLanguage → Policy → Recommendation → Result Verdict
unfolding parameter
eval_custom lang p rec = do
  rule ← parameter "rule" (Value.str "") p
  ok (run_custom lang p rec (rule_text lang rule))

-- `PolicyEngine._eval_one`
unfoldable pub eval_one : RuleLanguage → Policy → Recommendation → ℕ → Result Verdict
eval_one lang p rec now =
    if is_text "blast_radius" p.kind
    then eval_blast_radius p rec
    else if is_text "blackout_window" p.kind
    then eval_blackout_window p rec now
    else if is_text "change_freeze" p.kind
    then eval_change_freeze p
    else if is_text "custom" p.kind
    then eval_custom lang p rec
    else ok (Decision.approved, none)
