-- ===== src/Health/Tests.antt =====
-- Verdicts on small histories.
use mlsc.Base.{update, ℕ, ◌≤◌, ◌≡◌, ◌≢◌, ◌↔◌, refl, none, some, true, false, [], ◌∷◌, arith}
use mlsc.Models.{
  healthy, degraded, broken, within_allowance, kind_collected, FetchStats, SourceHealth, play,
}
use mlsc.Health.{evaluate, median, HealthWorld}
use mlsc.Health.Verdict.{IsEmptyStreak, BelowHalf, evaluate-meets}
use mlsc.Health.Assessment.{Run, after_runs, after_runs-broken}

abbrev stats_of : (id run_id kept : ℕ) → FetchStats
stats_of id run_id kept = record {
  id = id;
  run_id = run_id;
  monitor_source_id = 4;
  attempted = kept;
  fetched = kept;
  duplicates = 0;
  kept = kept;
  quota = 10;
  quota_outcome = within_allowance;
  validation_failed = false;
  outcome_kind = kind_collected;
  library_version = 1;
  duration_seconds = 2;
  error = none;
}

abbrev health : SourceHealth
health = record {
  monitor_source_id = 4;
  last_success_at = some 50;
  consecutive_empty = 1;
  consecutive_fail = 0;
  rows_median_28d = some 16;
  library_version = some 1;
  state = healthy;
}

abbrev empty_run : Run
empty_run = record { now = 70; history = 0 ∷ 0 ∷ 8 ∷ 9 ∷ 8 ∷ []; stats = stats_of 9 3 0 }

abbrev full_run : Run
full_run = record { now = 60; history = 8 ∷ []; stats = stats_of 8 2 8 }

abbrev world : HealthWorld
world = record {
  sources =
      record {
        id = 4;
        monitor_id = 1;
        source_name = play;
        instance_key = 30;
        config = 0;
        daily_quota = 10;
        enabled = true;
        last_external_id = none;
        last_published_at = none;
      }
      ∷ [];
  stats = stats_of 1 1 8 ∷ stats_of 2 2 9 ∷ stats_of 3 3 7 ∷ stats_of 4 4 0 ∷ stats_of 5 5 0 ∷ [];
  health = update (λ _. none) 4 (some health);
  alerts = [];
  now = 80;
}

median_of_five : median (8 ∷ 0 ∷ 9 ∷ 7 ∷ 0 ∷ []) ≡ 14
unfolding median
median_of_five = refl

collapsed : evaluate 3 true 0 (some 16) 5 ≡ degraded
unfolding evaluate
collapsed = refl

evaluate-meets_example :
    ((evaluate 3 true 0 (some 16) 5 ≡ broken) ↔ IsEmptyStreak 3 true 0 5)
    × ((evaluate 3 true 0 (some 16) 5 ≡ degraded)
        ↔ ((5 ≤ 5) × (evaluate 3 true 0 (some 16) 5 ≢ broken) × BelowHalf 3 (some 16)))
    × ((evaluate 3 true 0 (some 16) 5 ≡ healthy)
        ↔ ((evaluate 3 true 0 (some 16) 5 ≢ broken) × (evaluate 3 true 0 (some 16) 5 ≢ degraded)))
evaluate-meets_example = evaluate-meets 3 true 0 (some 16) 5

after_runs-broken_example :
    ((after_runs (empty_run ∷ empty_run ∷ full_run ∷ []) health).state ≡ broken) ↔ (1 ≤ 1)
after_runs-broken_example =
    after_runs-broken empty_run full_run (empty_run ∷ []) [] health refl (omega arith) (refl, tt)
      (omega arith)
