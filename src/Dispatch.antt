-- ===== src/Dispatch.antt =====
-- mlsc/tasks/dispatch.py: the collection of a run's sources, whose outcomes are values. What follows
-- the loop is in Dispatch/Run.
pub mod Outcomes
pub mod Rows
pub mod AllSources
pub mod Run
pub mod Verdicts
pub mod Completion
mod Tests
use mlsc.Base.{
  ℕ, Option, none, some, Bool, true, false, List, [], ◌∷◌, Result, ok, err, if◌then◌else◌, filter,
}
use mlsc.Models.{
  MonitorSource, FetchStats, RunStatus, partial, complete, failed, SourceHealth, ScraperAlert,
}
use mlsc.Runs.{
  SourceResult, collected, failed_validation, failed_transport, skipped_disabled, SourceOutcome,
  RunWorld, FinaliseError, enabled_for, finalise,
}
use mlsc.Ingest.{IngestWorld, CollectError, source_disabled, truthy, Collection, collect_source}

abbrev pub result_of : FetchStats → SourceResult
result_of stats =
    if stats.validation_failed
    then failed_validation
    else if truthy stats.error
    then failed_transport
    else collected

-- The `SourceOutcome` of a source's ledger row.
abbrev pub outcome_of : (source_id : ℕ) → FetchStats → SourceOutcome
outcome_of source_id stats = record {
  source_id = source_id;
  result = result_of stats;
  kept = stats.kept;
  error = stats.error;
}

abbrev pub skipped : (source_id : ℕ) → SourceOutcome
skipped source_id = record {
  source_id = source_id;
  result = skipped_disabled;
  kept = 0;
  error = none;
}

abbrev pub captured :
    (source_id : ℕ)
    → Result CollectError FetchStats × IngestWorld
    → Result CollectError SourceOutcome × IngestWorld
captured source_id (ok stats, w) = (ok (outcome_of source_id stats), w)
captured source_id (err source_disabled, w) = (ok (skipped source_id), w)
captured source_id (err e, w) = (err e, w)

-- `collect_one_source`: every exception but `SourceDisabled` passes through.
unfoldable pub collect_one_source :
    Collection → MonitorSource → IngestWorld → Result CollectError SourceOutcome × IngestWorld
collect_one_source c source w = captured source.id (collect_source c source.id w)

-- The next round's outcomes after those of a source. An exception ends the loop.
abbrev pub joined :
    Result CollectError SourceOutcome × IngestWorld
    → Result CollectError (List SourceOutcome) × IngestWorld
    → Result CollectError (List SourceOutcome) × IngestWorld
joined (err e, w) later = (err e, w)
joined (ok outcome, w) (err e, w') = (err e, w')
joined (ok outcome, w) (ok outcomes, w') = (ok (outcome ∷ outcomes), w')

-- The loop of `dispatch_run`. Each source's call has its own arguments.
unfoldable pub collect_all :
    (MonitorSource → Collection)
    → List MonitorSource
    → IngestWorld
    → Result CollectError (List SourceOutcome) × IngestWorld
collect_all c [] w = (ok [], w)
collect_all c (source ∷ rest) w =
    let first = collect_one_source (c source) source w in
    let later = collect_all c rest first.1 in joined first later
