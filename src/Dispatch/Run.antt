-- ===== src/Dispatch/Run.antt =====
-- mlsc/tasks/dispatch.py: `dispatch_run`, from the enabled sources to the verdicts on their health and
-- the pipeline of enrichment and analytics that follows a run with data. That pipeline is a parameter:
-- it changes the state and returns or raises, and what it raises passes through.
use mlsc.Base.{ℕ, Option, none, some, Bool, true, false, List, [], ◌∷◌, Result, ok, err, Store}
use mlsc.Models.{
  MonitorSource, Document, FetchStats, RunStatus, partial, complete, SourceHealth, ScraperAlert,
}
use mlsc.Runs.{SourceOutcome, RunWorld, FinaliseError, enabled_sources, finalise}
use mlsc.Ingest.{IngestWorld, CollectError, Collection}
use mlsc.Health.{HealthWorld, evaluate_source_health}
use mlsc.Dispatch.{collect_all}

-- The database and Redis, as the parts of `dispatch_run` see them.
pub record System : Type 0 where
  pub run_world : RunWorld
  pub documents : List Document
  pub stats : List FetchStats
  pub health : Store SourceHealth
  pub alerts : List ScraperAlert

-- What passes through `dispatch_run`. `source_missing` is raised by the evaluation of a row without a
-- source, and the last by the pipeline, with its text.
pub data DispatchError : Type 0 where
  collection_raised : CollectError → DispatchError
  finalise_raised : FinaliseError → DispatchError
  source_missing : DispatchError
  pipeline_raised : (text : ℕ) → DispatchError

-- `_run_downstream_pipeline`
abbrev pub Pipeline : Type 0
Pipeline = (run_id monitor_id : ℕ) → System → Result ℕ (Unit {0}) × System

abbrev pub ingest_part : System → IngestWorld
ingest_part w = record { sources = w.run_world.sources; documents = w.documents; stats = w.stats }

abbrev pub with_ingest : IngestWorld → System → System
with_ingest i w = record w {
  run_world = record (w.run_world) { sources = i.sources };
  documents = i.documents;
  stats = i.stats;
}

abbrev pub health_part : (now : ℕ) → System → HealthWorld
health_part now w = record {
  sources = w.run_world.sources;
  stats = w.stats;
  health = w.health;
  alerts = w.alerts;
  now = now;
}

-- `bool(sources)`
abbrev pub any_source : List MonitorSource → Bool
any_source [] = false
any_source (s ∷ rest) = true

abbrev pub has_data : RunStatus → Bool
has_data complete = true
has_data partial = true
has_data _ = false

abbrev pub piped : Result ℕ (Unit {0}) × System → Result DispatchError (Unit {0}) × System
piped (err text, w) = (err (pipeline_raised text), w)
piped (ok u, w) = (ok tt, w)

module _ (pipeline : Pipeline) (run_id monitor_id : ℕ) where
  -- The condition on the status.
  abbrev pub followed : Bool → System → Result DispatchError (Unit {0}) × System
  followed true w = piped (pipeline run_id monitor_id w)
  followed false w = (ok tt, w)

  -- After the verdicts.
  abbrev pub evaluated :
      RunStatus → System → Option HealthWorld → Result DispatchError (Unit {0}) × System
  evaluated status w none = (err source_missing, w)
  evaluated status w (some h) =
      followed (has_data status) (record w { health = h.health; alerts = h.alerts })

  abbrev pub finalised :
      (assessed_at : ℕ)
      → System
      → Result FinaliseError RunStatus × RunWorld
      → Result DispatchError (Unit {0}) × System
  finalised assessed_at w (err e, r) = (err (finalise_raised e), record w { run_world = r })
  finalised assessed_at w (ok status, r) =
      let w' = record w { run_world = r } in
      evaluated status w' (evaluate_source_health run_id (health_part assessed_at w'))

  abbrev pub gathered :
      (finalised_at assessed_at : ℕ)
      → List MonitorSource
      → System
      → Result CollectError (List SourceOutcome) × IngestWorld
      → Result DispatchError (Unit {0}) × System
  gathered finalised_at assessed_at sources w (err e, i) =
      (err (collection_raised e), with_ingest i w)
  gathered finalised_at assessed_at sources w (ok outcomes, i) =
      let w' = with_ingest i w in
      finalised assessed_at w' (
        finalise run_id outcomes (any_source sources)
          (record (w'.run_world) { now = finalised_at }))

-- `dispatch_run`. The times at which the run is finalised and its health assessed are arguments.
unfoldable pub dispatch_run :
    (MonitorSource → Collection)
    → Pipeline
    → (run_id monitor_id finalised_at assessed_at : ℕ) → System
    → Result DispatchError (Unit {0}) × System
dispatch_run c pipeline run_id monitor_id finalised_at assessed_at w =
    let sources = enabled_sources monitor_id w.run_world in
    gathered pipeline run_id monitor_id finalised_at assessed_at sources w
      (collect_all c sources (ingest_part w))
