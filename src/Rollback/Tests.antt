-- ===== src/Rollback/Tests.antt =====
-- Runs of the rollback monitor, and the theorems at these inputs.
use dcops.Base.{ℕ, ◌+◌, ◌*◌, ◌/◌, ◌≤◌, ◌≡◌, refl, String, true, none, [], List, ◌∷◌, ltb}
use dcops.Base.Result.{ok}
use dcops.Value.{Value, nil, cons, end, field}
use dcops.Events.{ActionExecuted}
use dcops.Executor.Effects.{History}
use dcops.Executor.Effects
use dcops.Executor.Actions.{post_action, revert}
use dcops.Executor.Agent.{fresh_uuid, try_publish}
use dcops.Executor.Gate.{posts}
use dcops.Executor.Tests.{surroundings}
use dcops.Rollback.Verify.{
  Floats, remove_wl, extract_devices, is_regression, regressions, reason_text, snapshot_post,
  snapshot_post_kpis, build_rolled_back, announce, trigger_revert, act_on, verify,
}
use dcops.Rollback.Monitor.{
  Monitor, Happening, received, ended, mem, discard, pick, handle, verify_later, step, run,
}
use dcops.Rollback.Inflight.{Matched, run-Matched}
use dcops.Rollback.Revert.{rollbacks, Checked, verify-Checked}
use dcops.Rollback.Count.{eligible, run-rollbacks}

-- Whole numbers and ten percent.
abbrev floats : Floats ℕ
floats = record {
  lt = ltb;
  above = λ x. x * 11 / 10;
  below = λ x. x * 9 / 10;
  entry = λ metric pre post. metric;
}

-- The surroundings measure 40.
abbrev hotter : ActionExecuted ℕ
hotter = record {
  bus_event = record {
    event_id = 1;
    site_id = "mumbai";
    trace_id = none;
    parent_event_id = none;
    metadata = [];
  };
  recommendation_id = 2;
  action_id = 3;
  success = true;
  response_payload =
      (
        "moves",
        Value.seq (cons (Value.mapping (field "workload_id" (Value.str "wl-srv-1") end)) nil),
      )
      ∷ [];
  pre_action_kpis = ("env.inlet.celsius", 30) ∷ ("fan.rpm", 41) ∷ [];
}

devices_of_moves : extract_devices hotter.response_payload ≡ "srv-1" ∷ []
unfolding extract_devices remove_wl
devices_of_moves = refl

one_regression :
    regressions floats hotter.pre_action_kpis (("env.inlet.celsius", 40) ∷ ("fan.rpm", 40) ∷ [])
    ≡ ("env.inlet.celsius", 30, 40) ∷ []
unfolding regressions is_regression
one_regression = refl

-- The second reception comes while the check sleeps, the third after it.
abbrev happenings : List (Happening ℕ)
happenings = received hotter ∷ received hotter ∷ ended 0 ∷ received hotter ∷ []

abbrev fresh : Monitor ℕ
fresh = record { inflight = []; asleep = []; history = [] }

rolled_back_once :
    let m = run floats surroundings happenings fresh in
    (rollbacks 3 m.history ≡ 1) × (posts m.history ≡ 1) × (m.inflight ≡ 3 ∷ [])
unfolding run step handle verify_later mem discard pick verify act_on trigger_revert announce
    build_rolled_back revert post_action fresh_uuid try_publish snapshot_post_kpis snapshot_post
    extract_devices remove_wl regressions is_regression reason_text rollbacks posts Effects.◌>>=◌
rolled_back_once = (refl, refl, refl)

verify-Checked_example :
    (post_kpis : List (String × ℕ)) × ((snapshot_post_kpis surroundings hotter []).0 ≡ ok post_kpis)
    × ((verify floats surroundings hotter []).0 ≡ ok tt)
    × Checked floats surroundings hotter post_kpis [] (verify floats surroundings hotter []).1
verify-Checked_example = verify-Checked floats surroundings hotter []

run-Matched_example : Matched (run floats surroundings happenings fresh)
run-Matched_example = run-Matched floats surroundings happenings []

run-rollbacks_example :
    rollbacks 3 (run floats surroundings happenings fresh).history
    ≤ rollbacks {F = ℕ} 3 [] + eligible 3 happenings
run-rollbacks_example = run-rollbacks floats surroundings 3 happenings []
