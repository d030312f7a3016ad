-- ===== src/Dispatch/Tests.antt =====
-- Sources of a run whose plans cannot be built.
use mlsc.Base.{err, refl, none, true, false, [], ◌∷◌, err}
use mlsc.Models.{MonitorSource, play, running, IngestionRun}
use mlsc.Runs.{enabled_sources}
use mlsc.Ingest.{Collection, IngestWorld, find_source}
use mlsc.Dispatch.{collect_one_source, collect_all}
use mlsc.Dispatch.Run.{Pipeline, System, dispatch_run}
use mlsc.Dispatch.Completion.{Completed, dispatch_run-Completed}
use mlsc.Dispatch.AllSources.{AllCollected, collect_all-AllCollected}
use mlsc.Dispatch.Outcomes.{OutcomeOf, collect_one_source-OutcomeOf}

abbrev source : MonitorSource
source = record {
  id = 4;
  monitor_id = 1;
  source_name = play;
  instance_key = 30;
  config = 0;
  daily_quota = 2;
  enabled = true;
  last_external_id = none;
  last_published_at = none;
}

abbrev collection : Collection
collection = record {
  plan_for = λ _. err (record { text = 99 ∷ []; validation_failed = true });
  hashing = record { sha256 = λ _. 0; rating_text = λ r. []; uuid = λ n. n };
  run_id = 3;
  stats_id = 8;
  duration_seconds = 2;
  write_error = none;
  violation_text = [];
}

abbrev world : IngestWorld
world = record { sources = source ∷ []; documents = []; stats = [] }

collect_one_source-OutcomeOf_example :
    OutcomeOf 3 4 world (collect_one_source collection source world)
unfolding find_source
collect_one_source-OutcomeOf_example =
    collect_one_source-OutcomeOf collection source source world refl refl refl refl tt

abbrev other_source : MonitorSource
other_source = record source { id = 5; instance_key = 31 }

abbrev two_sources : IngestWorld
two_sources = record { sources = source ∷ other_source ∷ []; documents = []; stats = [] }

collect_all-AllCollected_example :
    AllCollected
      (source ∷ other_source ∷ [])
      two_sources
      (collect_all (λ _. collection) (source ∷ other_source ∷ []) two_sources)
unfolding find_source
collect_all-AllCollected_example =
    collect_all-AllCollected 3 (λ _. collection) (source ∷ other_source ∷ []) two_sources
      ((refl, tt), (tt, tt))
      ((refl, (refl, refl), refl, λ row. tt), ((refl, (refl, refl), refl, λ row. tt), tt))

abbrev run : IngestionRun
run = record {
  id = 3;
  monitor_id = 1;
  run_date = 20;
  is_backfill = false;
  status = running;
  stage_status = λ _. none;
  finished_at = none;
}

abbrev system : System
system = record {
  run_world = record {
    monitors = λ _. none;
    sources = source ∷ other_source ∷ [];
    runs = run ∷ [];
    locks = λ _. none;
    dispatched = 3 ∷ [];
    now = 1000;
  };
  documents = [];
  stats = [];
  health = λ _. none;
  alerts = [];
}

-- A pipeline that raises.
abbrev failing : Pipeline
failing run_id monitor_id w = (err 7, w)

dispatch_run-Completed_example :
    Completed
      (λ _. collection)
      failing
      3
      1
      1010
      1020
      run
      system
      (dispatch_run (λ _. collection) failing 3 1 1010 1020 system)
unfolding find_source enabled_sources
dispatch_run-Completed_example =
    dispatch_run-Completed (λ _. collection) failing 3 1 1010 1020 system run refl
      ((refl, tt), (tt, tt))
      ((refl, (refl, refl), refl, λ row. tt), ((refl, (refl, refl), refl, λ row. tt), tt)) tt
