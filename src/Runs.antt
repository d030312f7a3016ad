-- ===== src/Runs.antt =====
-- mlsc/application/runs.py: `RunService`, which starts and finalises a monitor's run for one date.
-- The database and Redis are the state; the time, the identifier of a new row and the lock's token
-- are arguments. A call is one step: what another worker does between its awaits is another call.
pub mod Classification
pub mod Identity
pub mod Lifecycle
pub mod Finalisation
mod Tests
use mlsc.Base.{
  ℕ, Option, none, some, Bool, true, false, not, ◌&&◌, ◌||◌, List, [], ◌∷◌, map, ◌==◌, Result, ok,
  err, if◌then◌else◌, Store, update, filter, any, sum_by,
}
use mlsc.Models.Monitors.{MonitorStatus, active, Monitor}
use mlsc.Models.{
  MonitorSource, RunStatus, pending, running, partial, complete, failed, StageState, stage_pending,
  stage_complete, stage_failed, IngestionRun,
}
use mlsc.Locks.{RunKey, same_key, Locks, current_token, acquire, release}

-- `_LOCK_TTL_SECONDS` and the key `_STAGE_INGEST` of a run's stages.
abbrev pub lock_ttl_seconds : ℕ
lock_ttl_seconds = 900

abbrev pub stage_ingest : ℕ
stage_ingest = 0

pub data SourceResult : Type 0 where
  collected failed_validation failed_transport skipped_disabled skipped_breaker : SourceResult

pub record SourceOutcome : Type 0 where
  pub source_id : ℕ
  pub result : SourceResult
  pub kept : ℕ
  pub error : Option (List ℕ)

-- The exceptions of `start`. The last is SQLAlchemy's, of `scalar_one_or_none`.
pub data StartError : Type 0 where
  monitor_not_runnable : (monitor_id : ℕ) → StartError
  no_sources_configured : (monitor_id : ℕ) → StartError
  run_already_active : (run_id : ℕ) → StartError
  multiple_results : StartError

pub record RunWorld : Type 0 where
  pub monitors : Store Monitor
  pub sources : List MonitorSource
  pub runs : List IngestionRun
  pub locks : Locks
  -- the runs handed to the dispatcher, the latest first
  pub dispatched : List ℕ
  pub now : ℕ

abbrev pub run_key : IngestionRun → RunKey
run_key run = record {
  monitor_id = run.monitor_id;
  run_date = run.run_date;
  is_backfill = run.is_backfill;
}

-- `scalar_one_or_none`: nothing returned where it raises.
abbrev pub scalar_one_or_none {ℓ} : {A : Type ℓ} → List A → Option (Option A)
scalar_one_or_none [] = some none
scalar_one_or_none (x ∷ []) = some (some x)
scalar_one_or_none (x ∷ y ∷ rest) = none

abbrev pub select_runs : RunKey → List IngestionRun → List IngestionRun
select_runs key runs = filter (λ run. same_key (run_key run) key) runs

abbrev pub enabled_for : ℕ → MonitorSource → Bool
enabled_for monitor_id source = (source.monitor_id == monitor_id) && source.enabled

unfoldable pub enabled_sources : ℕ → RunWorld → List MonitorSource
enabled_sources monitor_id w = filter (enabled_for monitor_id) w.sources

abbrev pub is_active : MonitorStatus → Bool
is_active active = true
is_active _ = false

abbrev pub is_final : RunStatus → Bool
is_final complete = true
is_final partial = true
is_final failed = true
is_final _ = false

abbrev pub runnable : Option Monitor → Bool
runnable none = false
runnable (some monitor) = is_active monitor.status

-- The row that `start` adds.
abbrev pub new_run : (id : ℕ) → RunKey → IngestionRun
new_run id key = record {
  id = id;
  monitor_id = key.monitor_id;
  run_date = key.run_date;
  is_backfill = key.is_backfill;
  status = pending;
  stage_status = update (λ _. none) stage_ingest (some stage_pending);
  finished_at = none;
}

-- `start` from the lock on.
abbrev pub locked : (run_id : ℕ) → RunWorld → Option ℕ × Locks → Result StartError ℕ × RunWorld
locked run_id w (none, locks) = (err (run_already_active run_id), record w { locks = locks })
locked run_id w (some token, locks) =
    (ok run_id, record w { locks = locks; dispatched = run_id ∷ w.dispatched })

-- `start` once the run's row is known.
unfoldable pub start_run :
    (token : ℕ) → RunKey → IngestionRun → RunWorld → Result StartError ℕ × RunWorld
start_run token key run w =
    if is_final run.status
    then (ok run.id, w)
    else locked run.id w (acquire token lock_ttl_seconds w.now key w.locks)

-- `start` after the checks, given what the query for the run returned.
abbrev pub selected :
    (id token : ℕ)
    → RunKey
    → RunWorld
    → Option (Option IngestionRun)
    → Result StartError ℕ × RunWorld
selected id token key w none = (err multiple_results, w)
selected id token key w (some (some run)) = start_run token key run w
selected id token key w (some none) =
    start_run token key (new_run id key) (record w { runs = new_run id key ∷ w.runs })

-- `RunService.start`
unfoldable pub start : (id token : ℕ) → RunKey → RunWorld → Result StartError ℕ × RunWorld
start id token key w =
    if runnable (w.monitors key.monitor_id)
    then if any (enabled_for key.monitor_id) w.sources
      then selected id token key w (scalar_one_or_none (select_runs key w.runs))
      else (err (no_sources_configured key.monitor_id), w)
    else (err (monitor_not_runnable key.monitor_id), w)

abbrev pub is_collected : SourceResult → Bool
is_collected collected = true
is_collected _ = false

abbrev pub is_failed : SourceResult → Bool
is_failed failed_validation = true
is_failed failed_transport = true
is_failed _ = false

-- The status that `finalise` writes.
unfoldable pub classify : List SourceOutcome → (expected_volume : Bool) → RunStatus
classify outcomes expected_volume =
    let collected_total = sum_by (λ o. o.kept) outcomes in
    let any_collected = any (λ o. is_collected o.result) outcomes in
    let any_failed = any (λ o. is_failed o.result) outcomes in
    if expected_volume && (collected_total == 0)
    then failed
    else if any_failed && any_collected
    then partial
    else if any_failed && not any_collected
    then failed
    else complete

abbrev pub stage_of : RunStatus → StageState
stage_of failed = stage_failed
stage_of _ = stage_complete

-- `session.get(IngestionRun, …)`
abbrev pub find_run : ℕ → List IngestionRun → Option IngestionRun
find_run id [] = none
find_run id (run ∷ rest) = let later = find_run id rest in if run.id == id then some run else later

abbrev pub finished : RunStatus → (now : ℕ) → IngestionRun → IngestionRun
finished status now run = record run {
  status = status;
  stage_status = update run.stage_status stage_ingest (some (stage_of status));
  finished_at = some now;
}

abbrev pub finish_run : ℕ → RunStatus → (now : ℕ) → List IngestionRun → List IngestionRun
finish_run id status now runs =
    map (λ run. if run.id == id then finished status now run else run) runs

-- The release at the end of `finalise`: of whichever token holds the lock; `LockLost` is dropped.
unfoldable pub release_current : (now : ℕ) → RunKey → Locks → Locks
release_current now key locks = elim (current_token now key locks) [
  | none ↦ locks
  | some token ↦ (release now token key locks).1
]

-- The exception `ValueError` of `finalise`.
pub data FinaliseError : Type 0 where
  run_not_found : (run_id : ℕ) → FinaliseError

-- `RunService.finalise`
unfoldable pub finalise :
    (run_id : ℕ)
    → List SourceOutcome
    → (expected_volume : Bool) → RunWorld
    → Result FinaliseError RunStatus × RunWorld
finalise run_id outcomes expected_volume w = elim (find_run run_id w.runs) [
  | none ↦ (err (run_not_found run_id), w)
  | some run ↦
      let status = classify outcomes expected_volume in
      (
        ok status,
        record w {
          runs = finish_run run_id status w.now w.runs;
          locks = release_current w.now (run_key run) w.locks;
        },
      )
]
