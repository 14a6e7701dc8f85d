-- ===== src/Executor/Actions.antt =====
-- The action handlers of apps/agents/executor/actions.py.
use dcops.Base.{
  ℕ, String, Bool, true, false, Option, none, some, List, [], ◌∷◌, str_eq, if◌then◌else◌,
}
use dcops.Base.Int.{pos}
use dcops.Value.{Value, Dict, nil, end, field, get_or, truthy}
use dcops.Events.{Recommendation}
use dcops.Executor.Effects.{Env, Action, post, pure, lift, gets, emit, ◌>>=◌, ◌>>◌}

-- `ActionResult`: the payload is any JSON value until `ActionExecuted` validates it.
abbrev pub ActionResult : Type 0
ActionResult = Bool × Value

module _ {F : Type 0} (env : Env F) where
  abbrev error_payload : String → Value
  error_payload text = Value.mapping (field "error" (Value.str text) end)

  -- `_post_action`
  unfoldable pub post_action : String → Dict → Action F ActionResult
  post_action path payload = elim env.base_url [
    | none ↦ pure (false, error_payload "MOCKS_BASE_URL not configured")
    | some base ↦
        if str_eq base "" then pure (false, error_payload "MOCKS_BASE_URL not configured") else do
          answer ← gets (λ h. env.http h base path payload)
          emit (post base path payload)
          elim answer [
            | some json ↦ pure (true, json)
            | none ↦ gets (λ h. (false, error_payload (env.http_error h)))
          ]
  ]

  abbrev ids : Recommendation → ℕ → Dict → Dict
  ids rec action_id rest =
      ("action_id", Value.str (env.uuid_text action_id))
      ∷ ("recommendation_id", Value.str (env.uuid_text rec.recommendation_id))
      ∷ rest

  -- `x or []`
  abbrev or_empty : Value → Value
  or_empty v = if truthy v then v else Value.seq nil

  unfoldable pub handle_workload_migration : Recommendation → ℕ → Action F ActionResult
  handle_workload_migration rec action_id =
      post_action "/actions/migrate_workload"
        (ids rec action_id (("moves", or_empty (get_or "moves" Value.null rec.parameters)) ∷ []))

  -- `handle_fan_speed`, by the devices that the recommendation names.
  abbrev pub fan_speed_of : Recommendation → ℕ → List String → Action F ActionResult
  fan_speed_of rec action_id [] = pure (false, error_payload "no target device for fan adjust")
  fan_speed_of rec action_id (device ∷ devices) = do
    percent ← lift (env.to_float (get_or "target_fan_percent" (Value.int (pos 80)) rec.parameters))
    post_action "/actions/fan_speed_adjust"
        (ids rec action_id (("device_id", Value.str device) ∷ ("target_fan_percent", percent) ∷ []))

  unfoldable pub handle_fan_speed : Recommendation → ℕ → Action F ActionResult
  handle_fan_speed rec action_id = fan_speed_of rec action_id rec.target_device_ids

  -- `resolve`, over the table `HANDLERS`.
  unfoldable pub resolve : String → Option (Recommendation → ℕ → Action F ActionResult)
  resolve kind =
      if str_eq kind "workload_migration"
      then some handle_workload_migration
      else if str_eq kind "fan_speed_adjust"
      then some handle_fan_speed
      else none

  -- `revert`
  unfoldable pub revert : ℕ → String → Action F ActionResult
  revert original_action_id reason = post_action "/actions/revert" (
      ("original_action_id", Value.str (env.uuid_text original_action_id))
      ∷ ("reason", Value.str reason)
      ∷ [])
