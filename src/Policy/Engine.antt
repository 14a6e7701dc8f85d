-- ===== src/Policy/Engine.antt =====
-- `PolicyEngine` of apps/control_plane/policy_engine.py: loading policies and evaluating them all.
use dcops.Base.{
  ℕ, Bool, true, false, not, ◌&&◌, Option, none, some, List, [], ◌∷◌, ◌++◌, is_some, if◌then◌else◌,
}
use dcops.Base.Result.{Result, ok, err, key_error, type_error, ◌>>=◌}
use dcops.Value.{Value, nil, end, lookup, get_or, truthy, to_list, to_dict, excludes}
use dcops.Events.{Recommendation}
use dcops.Policy.Rules.{Decision, Policy, Verdict, Reason, RuleLanguage, eval_one}

pub record PolicyEngine : Type 0 where
  pub policies : List Policy

-- `p[key]`, given what `p.get(key)` finds.
required : Option Value → Result Value
required none = err key_error
required (some v) = ok v

-- One entry of the YAML list: `p["id"]` is refused on anything but a mapping that has the key.
load_policy : Value → Result Policy
unfolding required
load_policy (Value.mapping fs) = do
  p ← to_dict (Value.mapping fs)
  id ← required (lookup "id" p)
  kind ← required (lookup "kind" p)
  sites ← to_list (get_or "applies_to_sites" (Value.seq nil) p)
  ok (record {
    id = id;
    kind = kind;
    parameters = get_or "parameters" (Value.mapping end) p;
    applies_to_sites = sites;
  })
load_policy v = err type_error

load_policies : List Value → Result (List Policy)
unfolding load_policy
load_policies [] = ok []
load_policies (v ∷ vs) = do p ← load_policy v; ps ← load_policies vs; ok (p ∷ ps)

-- `from_yaml`, on what `yaml.safe_load` made of the text.
unfoldable pub from_yaml : Value → Result PolicyEngine
unfolding load_policies
from_yaml loaded = do
  raw ← to_dict (if truthy loaded then loaded else Value.mapping end)
  entries ← to_list (get_or "policies" (Value.seq nil) raw)
  policies ← load_policies entries
  ok (record { policies = policies })

-- `f"{p.id}: {reason}"`, or the text for a self-flagged recommendation.
pub data Note : Type 0 where
  by_policy : Value → Option Reason → Note
  self_flagged : Note

-- The ids of the policies that ran, and the mark of the self-flag.
pub data Applied : Type 0 where
  ran : Value → Applied
  self_flag : Applied

-- The variables of the loop in `evaluate`.
pub record Tally : Type 0 where
  pub applied : List Applied
  pub deny_reason : Option Note
  pub human_reason : Option Note

abbrev pub is_denied : Decision → Bool
is_denied Decision.denied = true
is_denied _ = false

abbrev pub is_needs_human : Decision → Bool
is_needs_human Decision.needs_human = true
is_needs_human _ = false

-- The loop's body after `_eval_one`.
unfoldable pub record_verdict : Policy → Verdict → Tally → Tally
record_verdict p (decision, reason) t =
    let t' : Tally = record t { applied = t.applied ++ Applied.ran p.id ∷ [] } in
    if is_denied decision && not (is_some t.deny_reason)
    then record t' { deny_reason = some (Note.by_policy p.id reason) }
    else if is_needs_human decision && not (is_some t.human_reason)
    then record t' { human_reason = some (Note.by_policy p.id reason) }
    else t'

abbrev pub Outcome : Type 0
Outcome = Decision × Option Note × List Applied

module _ (lang : RuleLanguage) (rec : Recommendation) (now : ℕ) where
  -- The loop over the policies.
  unfoldable pub run_policies : List Policy → Tally → Result Tally
  unfolding record_verdict
  run_policies [] t = ok t
  run_policies (p ∷ ps) t = elim (excludes rec.site_id p.applies_to_sites) [
    | true ↦ run_policies ps t
    | false ↦ eval_one lang p rec now >>= λ v. run_policies ps (record_verdict p v t)
  ]

-- The precedence of the notes, after the loop.
unfoldable pub conclude : Recommendation → Tally → Outcome
conclude rec t = elim t.deny_reason [
  | some r ↦ (Decision.denied, some r, t.applied)
  | none ↦ elim t.human_reason [
    | some r ↦ (Decision.needs_human, some r, t.applied)
    | none ↦
        if rec.requires_human_approval
        then (Decision.needs_human, some Note.self_flagged, t.applied ++ Applied.self_flag ∷ [])
        else (Decision.approved, none, t.applied)
  ]
]

-- `evaluate`
unfoldable pub evaluate : RuleLanguage → PolicyEngine → Recommendation → ℕ → Result Outcome
unfolding run_policies conclude
evaluate lang engine rec now = do
  t ←
      run_policies lang rec now engine.policies
        (record { applied = []; deny_reason = none; human_reason = none })
  ok (conclude rec t)
