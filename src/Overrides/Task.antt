-- ===== src/Overrides/Task.antt =====
-- mlsc/tasks/overrides.py: `run_override`, with its backfill and purge branches, and
-- mlsc/tasks/retention.py: `enforce_retention`. What `collect_one_source` comes to is a parameter, as in
-- mlsc/application/backfill.py; nothing is returned where it raises.
use mlsc.Base.{
  ℕ, Option, none, some, Bool, true, false, not, ◌||◌, List, [], ◌∷◌, ◌++◌, map, ◌==◌,
  if◌then◌else◌, Result, ok, err, filter, any, length, contains,
}
use mlsc.Models.Jobs.{
  OverrideKind, stage_rerun, backfill_window, retention_purge, OverrideStatus, override_running,
  override_complete, override_partial, override_failed, OverrideParameters, stage_parameter,
  window_parameters, OverrideJob,
}
use mlsc.Runs.{SourceOutcome, failed_transport, is_collected, is_failed}
use mlsc.Backfill
use mlsc.Backfill.{BackfillWorld, BackfillError}
use mlsc.Overrides.{Tools, OverrideWorld, is_expired, cutoff_of}

-- What passes through `run_override`.
pub data TaskError : Type 0 where
  backfill_raised : BackfillError → TaskError
  task_job_missing task_monitor_missing cutoff_overflow rerun_raised task_key_error : TaskError

-- `session.get(OverrideJob, …)`
abbrev pub find_override : ℕ → List OverrideJob → Option OverrideJob
find_override id [] = none
find_override id (j ∷ rest) =
    let later = find_override id rest in if j.id == id then some j else later

abbrev pub begun : OverrideJob → OverrideJob
begun j = record j { status = override_running }

abbrev pub ended : OverrideStatus → (now : ℕ) → OverrideJob → OverrideJob
ended status now j = record j { status = status; finished_at = some now }

abbrev pub change_job : ℕ → (OverrideJob → OverrideJob) → List OverrideJob → List OverrideJob
change_job id f jobs = map (λ j. if j.id == id then f j else j) jobs

-- `enforce_retention`: the number of documents removed, and the documents that are left.
abbrev pub removed :
    Tools → (monitor_id : ℕ) → OverrideWorld → Option ℕ → Result TaskError (ℕ × OverrideWorld)
removed t monitor_id w none = err cutoff_overflow
removed t monitor_id w (some cutoff) =
    let expired_ids =
      map {B = ℕ} (λ d. d.id) (filter (is_expired t monitor_id cutoff) w.documents) in
    ok (
      length expired_ids,
      record w { documents = filter (λ d. not (contains expired_ids d.id)) w.documents },
    )

unfoldable pub enforce_retention :
    Tools → (monitor_id today : ℕ) → OverrideWorld → Result TaskError (ℕ × OverrideWorld)
enforce_retention t monitor_id today w = elim (w.retention_days monitor_id) [
  | none ↦ err task_monitor_missing
  | some days ↦ removed t monitor_id w (cutoff_of today days)
]

-- The status of a backfill's outcomes.
abbrev pub no_outcome : List SourceOutcome → Bool
no_outcome [] = true
no_outcome (o ∷ rest) = false

unfoldable pub window_status : List SourceOutcome → OverrideStatus
window_status outcomes =
    let any_collected = any (λ o. is_collected o.result) outcomes in
    if no_outcome outcomes || not any_collected
    then override_failed
    else if any (λ o. is_failed o.result) outcomes
    then override_partial
    else override_complete

-- The outcome of a source whose collection raised.
abbrev pub raised_outcome : (source_id error : ℕ) → SourceOutcome
raised_outcome source_id error = record {
  source_id = source_id;
  result = failed_transport;
  kept = 0;
  error = some (error ∷ []);
}

module _ {S : Type 0} (collect_one_source : (run_id source_id : ℕ) → S → Option SourceOutcome × S)
    (error_text : ℕ) where
  -- `collect_one_date`, which appends an outcome and does not raise.
  abbrev pub outcome_or_failure : (source_id : ℕ) → Option SourceOutcome → SourceOutcome
  outcome_or_failure source_id none = raised_outcome source_id error_text
  outcome_or_failure source_id (some o) = o

  abbrev pub collect_one_date :
      (run_id source_id : ℕ) → S × List SourceOutcome → Bool × (S × List SourceOutcome)
  collect_one_date run_id source_id (s, outcomes) =
      let (o, s') = collect_one_source run_id source_id s in
      (false, (s', outcomes ++ outcome_or_failure source_id o ∷ []))

  abbrev pub window_ended :
      OverrideWorld
      → Result BackfillError (Unit {0}) × BackfillWorld × (S × List SourceOutcome)
      → Result TaskError OverrideStatus × OverrideWorld × S
  window_ended w (err e, b, (s, outcomes)) = (err (backfill_raised e), record w { backfill = b }, s)
  window_ended w (ok u, b, (s, outcomes)) =
      (ok (window_status outcomes), record w { backfill = b }, s)

  abbrev pub window_submitted :
      (ids : ℕ → ℕ)
      → OverrideWorld
      → S
      → Result BackfillError ℕ × BackfillWorld
      → Result TaskError OverrideStatus × OverrideWorld × S
  window_submitted ids w s (err e, b) = (err (backfill_raised e), record w { backfill = b }, s)
  window_submitted ids w s (ok job_id, b) =
      window_ended w (Backfill.run collect_one_date ids job_id b (s, []))

  -- `_run_backfill_window`
  unfoldable pub run_backfill_window :
      (ids : ℕ → ℕ) (backfill_id monitor_id window_start window_end today : ℕ)
      → OverrideWorld
      → S
      → Result TaskError OverrideStatus × OverrideWorld × S
  run_backfill_window ids backfill_id monitor_id window_start window_end today w s =
      window_submitted ids w s
        (Backfill.submit backfill_id monitor_id window_start window_end today w.backfill)

  -- `_run_retention_purge`
  abbrev pub purged :
      OverrideWorld
      → S
      → Result TaskError (ℕ × OverrideWorld)
      → Result TaskError OverrideStatus × OverrideWorld × S
  purged w s (err e) = (err e, w, s)
  purged w s (ok (count, w')) = (ok override_complete, w', s)

  -- What the rerun of a stage comes to.
  abbrev pub rerun_ended :
      (rerun : Option OverrideStatus)
      → OverrideWorld
      → S
      → Result TaskError OverrideStatus × OverrideWorld × S
  rerun_ended none w s = (err rerun_raised, w, s)
  rerun_ended (some status) w s = (ok status, w, s)

  -- The branches, by a job's kind. Parameters of another kind lack the key that a branch reads.
  abbrev pub branch :
      Tools
      → (ids : ℕ → ℕ) (backfill_id today : ℕ) → (rerun : Option OverrideStatus) → (monitor_id : ℕ)
      → OverrideKind
      → OverrideParameters
      → OverrideWorld
      → S
      → Result TaskError OverrideStatus × OverrideWorld × S
  branch t ids backfill_id today rerun monitor_id stage_rerun (stage_parameter stage) w s =
      rerun_ended rerun w s
  branch t ids backfill_id today rerun monitor_id backfill_window (window_parameters first final) w
        s =
      run_backfill_window ids backfill_id monitor_id first final today w s
  branch t ids backfill_id today rerun monitor_id retention_purge of_kind w s =
      purged w s (enforce_retention t monitor_id today w)
  branch t ids backfill_id today rerun monitor_id _ _ w s = (err task_key_error, w, s)

  abbrev pub closed :
      (job_id now : ℕ)
      → Result TaskError OverrideStatus × OverrideWorld × S
      → Result TaskError (Unit {0}) × OverrideWorld × S
  closed job_id now (err e, w, s) = (err e, w, s)
  closed job_id now (ok status, w, s) =
      (ok tt, record w { jobs = change_job job_id (ended status now) w.jobs }, s)

  -- `run_override`. An exception of a branch is caught nowhere.
  unfoldable pub run_override :
      Tools
      → (ids : ℕ → ℕ) (backfill_id job_id today now : ℕ) → (rerun : Option OverrideStatus)
      → OverrideWorld
      → S
      → Result TaskError (Unit {0}) × OverrideWorld × S
  run_override t ids backfill_id job_id today now rerun w s = elim (find_override job_id w.jobs) [
    | none ↦ (err task_job_missing, w, s)
    | some job ↦ closed job_id now (
        branch t ids backfill_id today rerun job.monitor_id job.kind job.parameters
          (record w { jobs = change_job job_id begun w.jobs }) s)
  ]
