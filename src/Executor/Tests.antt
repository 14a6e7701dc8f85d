-- ===== src/Executor/Tests.antt =====
-- Runs of the executor against concrete surroundings, and the theorems at these inputs.
use mathlib.Core.List.{Memᴰ}
use dcops.Base.{ℕ, ◌≤◌, ◌<◌, ◌≡◌, refl, true, false, none, some, [], ◌∷◌, arith, length}
use dcops.Base.Int.{◌+ℤ◌}
use dcops.Base.Result.{ok}
use dcops.Value.{Value, end, field, to_int, to_dict, to_set}
use dcops.Events.{Recommendation}
use dcops.Policy.Rules.{
  Policy, eval_blast_radius, eval_blackout_window, eval_one, eval_custom, parameter,
}
use dcops.Policy.Engine.{evaluate}
use dcops.Policy.Tests.{language, blast, migration, engine, noon}
use dcops.Executor.Effects.{Env, Effect, History, Average, number}
use dcops.Executor.Effects
use dcops.Executor.Actions.{resolve, post_action, handle_workload_migration}
use dcops.Executor.Agent.{
  model, raw, fresh_uuid, kpi_metrics_for, persist_action, snapshot_metrics, snapshot_kpis,
  try_publish, publish_needs_human, run_handler, execute, dispatch, parse, handle_recommendation,
  handle, serve,
}
use dcops.Executor.Gate.{posts, GatePassed, handle_recommendation-GatePassed}
use dcops.Executor.Freeze.{IsFreeze, serve-freeze}
use dcops.Executor.Records.{pushes, asked, handle_recommendation-Accounted}

-- A service that accepts every call, at noon.
abbrev pub surroundings : Env ℕ
surroundings = record {
  base_url = some "http://mocks:8000/";
  ts_enabled = true;
  has_client = true;
  http = λ h base path payload. some (Value.mapping (field "status" (Value.str "ok") end));
  http_error = λ h. "";
  redis = λ h. true;
  bus = λ h. true;
  average = λ h site metric devices. number 40;
  uuid4 = λ h. length h;
  utc_hour = λ h. 12;
  validate = λ v. none;
  to_float = λ v. ok v;
  uuid_text = λ id. "";
  repr = λ s. s;
  note_text = λ n. "";
  actions_keep = 500;
}

abbrev small_move : Recommendation
small_move = record migration { target_device_ids = "a" ∷ [] }

-- A move of one device calls the service once; a move of three waits for a human.
small_move_runs :
    let h = serve surroundings language engine (model small_move ∷ []) [] in
    (posts h ≡ 1) × (length (pushes h) ≡ 1) × (asked h ≡ 0)
unfolding serve handle parse handle_recommendation evaluate eval_one eval_blast_radius
    eval_blackout_window eval_custom dispatch execute resolve handle_workload_migration post_action
    run_handler snapshot_kpis snapshot_metrics kpi_metrics_for persist_action fresh_uuid try_publish
    Effects.◌>>=◌ posts pushes asked to_dict to_int to_set ◌+ℤ◌
small_move_runs = (refl, refl, refl)

small_move_called :
    posts {F = ℕ} [] < posts (handle_recommendation surroundings language engine small_move []).1
unfolding handle_recommendation evaluate eval_one eval_blast_radius eval_blackout_window eval_custom
    dispatch execute resolve handle_workload_migration post_action run_handler snapshot_kpis
    snapshot_metrics kpi_metrics_for persist_action fresh_uuid try_publish Effects.◌>>=◌ posts
    to_dict to_int to_set ◌+ℤ◌
small_move_called = omega arith

handle_recommendation-GatePassed_example :
    GatePassed surroundings language engine small_move []
      (handle_recommendation surroundings language engine small_move []).1
handle_recommendation-GatePassed_example =
    handle_recommendation-GatePassed surroundings language engine small_move [] small_move_called

abbrev freeze : Policy
freeze = record {
  id = Value.str "change-freeze-global";
  kind = Value.str "change_freeze";
  parameters = Value.mapping (field "enabled" (Value.bool true) end);
  applies_to_sites = [];
}

freeze-IsFreeze : IsFreeze freeze
unfolding to_dict parameter
freeze-IsFreeze = record {
  kind = refl;
  sites = refl;
  enabled = Value.bool true;
  read = refl;
  on = refl;
}

serve-freeze_example :
    posts (
      serve surroundings language
        (record { policies = blast ∷ freeze ∷ [] })
        (raw Value.null ∷ model small_move ∷ [])
        [])
    ≤ posts {F = ℕ} []
serve-freeze_example =
    serve-freeze surroundings language (record { policies = blast ∷ freeze ∷ [] }) freeze
      freeze-IsFreeze (Memᴰ.tail (Memᴰ.head refl)) (raw Value.null ∷ model small_move ∷ []) []

-- A bus that refuses every message leaves no trace of the same move.
abbrev silent_bus : Env ℕ
silent_bus = record surroundings { bus = λ h. false }

none_asked : asked (handle_recommendation silent_bus language engine migration []).1 ≡ 0
unfolding handle_recommendation evaluate eval_one eval_blast_radius eval_blackout_window eval_custom
    dispatch publish_needs_human try_publish Effects.◌>>=◌ asked to_dict to_int to_set ◌+ℤ◌
none_asked = refl

handle_recommendation-Accounted_example :
    (pushes (handle_recommendation surroundings language engine migration []).1 ≡ [])
    × (asked (handle_recommendation surroundings language engine migration []).1 ≡ 1)
    × (posts (handle_recommendation surroundings language engine migration []).1 ≡ 0)
unfolding handle_recommendation evaluate eval_one eval_blast_radius eval_blackout_window eval_custom
    dispatch publish_needs_human try_publish Effects.◌>>=◌ posts pushes asked to_dict to_int to_set
    ◌+ℤ◌
handle_recommendation-Accounted_example =
    handle_recommendation-Accounted surroundings language engine migration _ [] refl noon refl
