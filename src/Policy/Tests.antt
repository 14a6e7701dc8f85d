-- ===== src/Policy/Tests.antt =====
-- Runs of the policy engine on the policies of apps/control_plane/policies.default.yml, and the
-- theorems at these inputs.
use mathlib.Core.List.{Memᴰ}
use dcops.Base.{◌≡◌, refl, true, false, none, some, [], ◌∷◌, str_eq, if◌then◌else◌}
use dcops.Base.Int.{pos, negsuc, ◌+ℤ◌}
use dcops.Base.Result.{ok, err, key_error, value_error}
use dcops.Value.{Value, nil, cons, end, field, to_int, to_dict, to_list, to_set}
use dcops.Events.{Recommendation}
use dcops.Policy.Rules.{
  denied, needs_human, Policy, blast_radius, in_blackout, RuleLanguage, eval_blast_radius,
  eval_blackout_window, eval_custom, eval_one,
}
use dcops.Policy.Engine.{PolicyEngine, by_policy, ran, Outcome, from_yaml, evaluate}
use dcops.Policy.Precedence.{Justified, Includes, evaluate-Justified, evaluate_order_free}

-- A rule language in which the one known rule asks for review and its condition raises.
abbrev pub language : RuleLanguage
language = record {
  match_rule = λ rule.
      if str_eq rule "if vision then needs_human" then some ("vision", "needs_human") else none;
  eval_condition = λ condition rec. none;
  text_of = λ v. "";
}

abbrev pub blast : Policy
blast = record {
  id = Value.str "blast-radius-global";
  kind = Value.str "blast_radius";
  parameters = Value.mapping (field "max_devices_per_action" (Value.int (pos 2)) end);
  applies_to_sites = [];
}

abbrev pub nightly : Policy
nightly = record {
  id = Value.str "nightly-migration-freeze";
  kind = Value.str "blackout_window";
  parameters = Value.mapping (
      field "local_start_hour" (Value.int (pos 22)) (
        field "local_end_hour" (Value.int (pos 6))
          (field "applies_to_kinds" (Value.seq (cons (Value.str "workload_migration") nil)) end)));
  applies_to_sites = [];
}

abbrev pub vision : Policy
vision = record {
  id = Value.str "vision-decisions-need-human";
  kind = Value.str "custom";
  parameters = Value.mapping (field "rule" (Value.str "if vision then needs_human") end);
  applies_to_sites = [];
}

abbrev pub migration : Recommendation
migration = record {
  bus_event = record {
    event_id = 1;
    site_id = "frankfurt";
    trace_id = none;
    parent_event_id = none;
    metadata = [];
  };
  recommendation_id = 7;
  kind = "workload_migration";
  target_device_ids = "a" ∷ "b" ∷ "c" ∷ [];
  parameters = [];
  estimated_impact = [];
  confidence = Value.int (pos 1);
  requires_human_approval = false;
}

abbrev pub engine : PolicyEngine
engine = record { policies = blast ∷ nightly ∷ vision ∷ [] }

abbrev reversed : PolicyEngine
reversed = record { policies = vision ∷ nightly ∷ blast ∷ [] }

abbrev smaller : PolicyEngine
smaller = record { policies = blast ∷ [] }

-- At 12:00 the move of three devices waits for a human; at 23:00 it is denied.
pub noon :
    evaluate language engine migration 12
    ≡ ok (
      needs_human,
      some (by_policy (Value.str "blast-radius-global") (some (blast_radius 3 (pos 2)))),
      ran (Value.str "blast-radius-global")
          ∷ ran (Value.str "nightly-migration-freeze")
          ∷ ran (Value.str "vision-decisions-need-human")
          ∷ [],
    )
unfolding evaluate eval_one eval_blast_radius eval_blackout_window eval_custom to_dict to_int to_set
    ◌+ℤ◌
noon = refl

abbrev night_outcome : Outcome
night_outcome = (
  denied,
  some (by_policy (Value.str "nightly-migration-freeze") (some (in_blackout (pos 22) (pos 6) 23))),
  ran (Value.str "blast-radius-global")
      ∷ ran (Value.str "nightly-migration-freeze")
      ∷ ran (Value.str "vision-decisions-need-human")
      ∷ [],
)

night : evaluate language engine migration 23 ≡ ok night_outcome
unfolding evaluate eval_one eval_blast_radius eval_blackout_window eval_custom to_dict to_int to_set
    ◌+ℤ◌
night = refl

smaller_night :
    evaluate language smaller migration 23
    ≡ ok (
      needs_human,
      some (by_policy (Value.str "blast-radius-global") (some (blast_radius 3 (pos 2)))),
      ran (Value.str "blast-radius-global") ∷ [],
    )
unfolding evaluate eval_one eval_blast_radius to_dict to_int
smaller_night = refl

-- `int` on texts.
texts :
    (to_int (Value.str " -1_000 ") ≡ ok (negsuc 999))
    × (to_int (Value.str "1__0") ≡ err value_error)
    × (to_int (Value.real true 17 1) ≡ ok (negsuc 7))
unfolding to_int
texts = (refl, refl, refl)

-- A policy with no `id` does not load; one with only `id` and `kind` does.
loading :
    (from_yaml (
        Value.mapping (
          field "policies"
            (Value.seq (cons (Value.mapping (field "kind" (Value.str "x") end)) nil))
            end))
      ≡ err key_error)
    × (from_yaml Value.null ≡ ok (record { policies = [] }))
unfolding from_yaml to_dict to_list
loading = (refl, refl)

evaluate-Justified_example : Justified language migration 23 engine.policies denied
evaluate-Justified_example = evaluate-Justified language migration 23 engine night_outcome night

smaller_in_engine : Includes engine.policies smaller.policies
smaller_in_engine p (Memᴰ.head e) = Memᴰ.head e
smaller_in_engine p (Memᴰ.tail m) = elim m [ ]

engine_in_reversed : Includes reversed.policies engine.policies
engine_in_reversed p (Memᴰ.head e) = Memᴰ.tail (Memᴰ.tail (Memᴰ.head e))
engine_in_reversed p (Memᴰ.tail (Memᴰ.head e)) = Memᴰ.tail (Memᴰ.head e)
engine_in_reversed p (Memᴰ.tail (Memᴰ.tail (Memᴰ.head e))) = Memᴰ.head e
engine_in_reversed p (Memᴰ.tail (Memᴰ.tail (Memᴰ.tail m))) = elim m [ ]

reversed_in_engine : Includes engine.policies reversed.policies
reversed_in_engine p (Memᴰ.head e) = Memᴰ.tail (Memᴰ.tail (Memᴰ.head e))
reversed_in_engine p (Memᴰ.tail (Memᴰ.head e)) = Memᴰ.tail (Memᴰ.head e)
reversed_in_engine p (Memᴰ.tail (Memᴰ.tail (Memᴰ.head e))) = Memᴰ.head e
reversed_in_engine p (Memᴰ.tail (Memᴰ.tail (Memᴰ.tail m))) = elim m [ ]

evaluate_order_free_example :
    (o : Outcome) × (evaluate language reversed migration 23 ≡ ok o) × (o.0 ≡ denied)
evaluate_order_free_example =
    evaluate_order_free language migration 23 engine reversed night_outcome engine_in_reversed
      reversed_in_engine night
