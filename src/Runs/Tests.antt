-- ===== src/Runs/Tests.antt =====
-- Runs of `RunService` on small states.
use mlsc.Base.{
  update, ◌+◌, ◌≡◌, ◌≢◌, ◌↔◌, ◌⊎◌, refl, none, some, true, false, List, [], ◌∷◌, ok, err, arith,
  All, Has,
}
use mlsc.Models.Monitors.{product, active}
use mlsc.Fetch.Json.{end}
use mlsc.Models.{MonitorSource, play, running, complete, partial, failed, IngestionRun}
use mlsc.Locks.{RunKey, same_key, acquire, current_token}
use mlsc.Runs.{
  start_run, SourceOutcome, collected, failed_transport, run_already_active, multiple_results,
  RunWorld, start, classify, finalise, run_key, is_failed, is_collected,
}
use mlsc.Runs.Classification.{VolumeIsFine, classify-meets}
use mlsc.Runs.Identity.{DistinctRuns, start-DistinctRuns}
use mlsc.Runs.Lifecycle.{start-once}
use mlsc.Runs.Finalisation.{finalise-frees, start-finalised}

abbrev source : MonitorSource
source = record {
  id = 4;
  monitor_id = 1;
  source_name = play;
  instance_key = 30;
  config = 0;
  daily_quota = 10;
  enabled = true;
  last_external_id = none;
  last_published_at = none;
}

abbrev key : RunKey
key = record { monitor_id = 1; run_date = 20; is_backfill = false }

-- A run of the day before, which is still running.
abbrev earlier_run : IngestionRun
earlier_run = record {
  id = 6;
  monitor_id = 1;
  run_date = 19;
  is_backfill = false;
  status = running;
  stage_status = λ _. none;
  finished_at = none;
}

abbrev world : RunWorld
world = record {
  monitors =
      update (λ _. none) 1
        (some (record {
          id = 1;
          name = "Notes";
          target_type = product;
          seed = end;
          schedule = 7;
          timezone = 8;
          status = active;
          retention_days = 30;
        }));
  sources = source ∷ [];
  runs = earlier_run ∷ [];
  locks = λ _. none;
  dispatched = [];
  now = 1000;
}

abbrev outcomes : List SourceOutcome
outcomes =
    record { source_id = 4; result = collected; kept = 3; error = none }
    ∷ record { source_id = 5; result = failed_transport; kept = 0; error = some (116 ∷ []) }
    ∷ []

started_and_dispatched : (start 7 9 key world).0 ≡ ok 7
unfolding start start_run acquire current_token
started_and_dispatched = refl

classified_partial : classify outcomes true ≡ partial
unfolding classify
classified_partial = refl

start-once_example :
    let later = record ((start 7 9 key world).1) { now = 1000 + 60 } in
    (start 8 10 key later ≡ (ok 7, later))
    ⊎ (start 8 10 key later ≡ (err (run_already_active 7), later))
start-once_example = start-once 7 9 8 10 key world 7 60 started_and_dispatched (omega arith)

start-DistinctRuns_example :
    DistinctRuns (start 7 9 key world).1.runs × ((start 7 9 key world).0 ≢ err multiple_results)
start-DistinctRuns_example = start-DistinctRuns 7 9 key world (tt, tt) refl

classify-meets_example :
    ((classify outcomes true ≡ complete)
      ↔ (All (λ o. is_failed o.result ≡ false) outcomes × VolumeIsFine true outcomes))
    × ((classify outcomes true ≡ partial) ↔ (
        Has (λ o. is_failed o.result ≡ true) outcomes
        × Has (λ o. is_collected o.result ≡ true) outcomes
        × VolumeIsFine true outcomes))
    × ((classify outcomes true ≡ failed) ↔ (
        ((true ≡ true) × All (λ o. o.kept ≡ 0) outcomes)
        ⊎ (Has (λ o. is_failed o.result ≡ true) outcomes
            × All (λ o. is_collected o.result ≡ false) outcomes)))
classify-meets_example = classify-meets outcomes true

finalise-frees_example :
    ((finalise 6 outcomes true world).0 ≡ ok (classify outcomes true))
    × (current_token
          (finalise 6 outcomes true world).1.now
          (run_key earlier_run)
          (finalise 6 outcomes true world).1.locks
        ≡ none)
    × ((other : RunKey)
        → same_key other (run_key earlier_run) ≡ false
        → (finalise 6 outcomes true world).1.locks other ≡ none)
    × ((finalise 6 outcomes true world).1.dispatched ≡ [])
finalise-frees_example = finalise-frees 6 outcomes true world earlier_run refl

start-finalised_example :
    let w' = record ((finalise 6 outcomes true world).1) { now = 2000 } in
    start 8 10 (run_key earlier_run) w' ≡ (ok 6, w')
start-finalised_example =
    start-finalised 6 outcomes true world earlier_run 8 10 2000 (tt, tt) refl refl refl
