-- ===== src/Overrides/Tests.antt =====
-- Repair jobs of one monitor.
use mlsc.Base.{
  arith, ℕ, ◌+◌, ◌*◌, ◌≡◌, ◌≢◌, refl, Option, none, some, not, [], ◌∷◌, ok, err, filter, length,
  update,
}
use mlsc.Models.{Document, play}
use mlsc.Models.Jobs.{OverrideJob, backfill_window, window_parameters}
use mlsc.Runs.{SourceOutcome, collected}
use mlsc.Backfill
use mlsc.Backfill.{integrity_error, backfill_run}
use mlsc.Overrides.{
  Tools, OverrideRequest, OverrideWorld, is_expired, submit, preview_retention,
  check_purge_confirmed, new_override,
}
use mlsc.Overrides.Task.{backfill_raised, find_override, begun, enforce_retention, run_override}
use mlsc.Overrides.InFlight.{OneInFlight, submit-OneInFlight}
use mlsc.Overrides.Unfinished.{run_override-Stuck}
use mlsc.Overrides.Purges.{enforce_retention-preview}

abbrev tools : Tools
tools = record { sha256 = λ monitor_id cutoff count. cutoff + count; midnight = λ day. day * 24 }

abbrev document : (id published_at : ℕ) → Document
document id published_at = record {
  id = id;
  monitor_id = 1;
  source_name = play;
  external_id = 70;
  entity_id = 5;
  url = none;
  author_hash = 11;
  body = none;
  published_at = published_at;
  rating = none;
  app_version = none;
  engagement = none;
  content_hash = 12;
}

abbrev job : OverrideJob
job = new_override 5 1 backfill_window (window_parameters 20 22)

-- The date 21 has a backfill run already.
abbrev world : OverrideWorld
world = record {
  retention_days = update (λ _. none) 1 (some 10);
  documents = document 1 100 ∷ document 2 800 ∷ [];
  jobs = job ∷ [];
  backfill = record { jobs = []; runs = backfill_run 60 1 21 ∷ []; sources = [] };
  dispatched = 5 ∷ [];
}

abbrev collect : ℕ → ℕ → ℕ → Option SourceOutcome × ℕ
collect run_id source_id calls =
    (some (record { source_id = source_id; result = collected; kept = 1; error = none }), calls + 1)

accepted : (Backfill.submit 9 1 20 22 40 world.backfill).0 ≡ ok 9
unfolding Backfill.submit
accepted = refl

run_override-Stuck_example :
    let (result, w', s') =
      run_override collect 0 tools (λ date. date + 100) 9 5 40 1000 none world 0 in
    (result ≡ err (backfill_raised integrity_error))
    × (find_override 5 w'.jobs ≡ some (begun job))
    × ((id later k : ℕ) (r : OverrideRequest)
        → (submit tools id 1 later (record r { kind = backfill_window }) w').0 ≢ ok k)
run_override-Stuck_example =
    run_override-Stuck collect 0 tools (λ date. date + 100) 9 5 40 1000 20 22 21 9 none job world 0
      refl refl refl accepted refl refl

one_in_flight :
    OneInFlight
      (submit tools 6 1 40
        (record {
          kind = backfill_window;
          stage = none;
          window_start = some 1;
          window_end = some 2;
          purge_token = none;
        })
        world).1.jobs
one_in_flight = submit-OneInFlight tools 6 1 40 _ world (tt, tt)

enforce_retention-preview_example :
    (count : ℕ) × (token : ℕ) × (w' : OverrideWorld) × (preview_retention tools 1 40 world
      ≡ ok (count, token))
    × (check_purge_confirmed tools 1 40 (some token) world ≡ ok tt)
    × (enforce_retention tools 1 40 world ≡ ok (count, w'))
    × (w'.documents ≡ filter (λ d. not (is_expired tools 1 30 d)) world.documents)
    × (length world.documents ≡ length w'.documents + count)
enforce_retention-preview_example =
    enforce_retention-preview tools 1 40 10 world refl (omega arith) ((refl, tt), (tt, tt))
