-- ===== src/Backfill.antt =====
-- mlsc/application/backfill.py: `BackfillService`, which records a window of dates and collects each of
-- them under a run of its own. What collects one source for one run is a parameter, as it is in the
-- code: it returns or raises, and has a state of its own.
pub mod Dates
pub mod Ends
pub mod Windows
mod Tests
use mlsc.Base.{
  ℕ, zero, suc, ◌+◌, ◌-◌, ◌*◌, ◌≤◌, ◌<◌, ◌≡◌, ◌∙◌, ◌≢◌, ◌↔◌, ◌⊎◌, refl, sym, ap, subst, fun_ext,
  Option, none, some, is_some, Bool, true, false, not, ◌&&◌, ◌||◌, List, [], ◌∷◌, ◌++◌, map, ◌==◌,
  ==_iff, ==_refl, ltb, leb, if◌then◌else◌, arith, Result, ok, err, All, Has, inl, inr, found_cases,
  Bool-cases, Option-cases, List-cases, filter, any, all, sum_by, length, take, get_elem?, contains,
  Store, update, update-same, length-append, length-map, length-take-le, length-filter-le,
  filter-same, filter-filter, All-append, any-Has, any-All, ltb→lt, lt→ltb, leb→le, le→leb, ◌>>=◌,
  >>=-eq-ok,
}
use mlsc.Models.{MonitorSource, IngestionRun, pending}
use mlsc.Models.Jobs.{
  BackfillStatus, backfill_pending, backfill_running, backfill_complete, backfill_failed,
  BackfillJob,
}
use mlsc.Locks.{RunKey, same_key}
use mlsc.Runs.{run_key, scalar_one_or_none, enabled_for}

pub record BackfillWorld : Type 0 where
  pub jobs : List BackfillJob
  pub runs : List IngestionRun
  pub sources : List MonitorSource

-- What the service raises: the `ValueError` of a window, `BackfillOverlaps`, SQLAlchemy's error of
-- `scalar_one_or_none`, the error of the unique constraint on a run's monitor, date and mode, and that
-- of a job that is not there.
pub data BackfillError : Type 0 where
  invalid_window backfill_overlaps multiple_results integrity_error job_missing : BackfillError

abbrev pub is_backfill_in_flight : BackfillStatus → Bool
is_backfill_in_flight backfill_pending = true
is_backfill_in_flight backfill_running = true
is_backfill_in_flight _ = false

-- The condition of the query in `submit`.
abbrev pub overlaps : (monitor_id window_start window_end : ℕ) → BackfillJob → Bool
overlaps monitor_id window_start window_end job =
    (job.monitor_id == monitor_id)
    && (leb job.window_start window_end
        && (leb window_start job.window_end && is_backfill_in_flight job.status))

abbrev pub new_backfill : (id monitor_id window_start window_end : ℕ) → BackfillJob
new_backfill id monitor_id window_start window_end = record {
  id = id;
  monitor_id = monitor_id;
  window_start = window_start;
  window_end = window_end;
  status = backfill_pending;
}

-- `submit`, given what the query returned.
abbrev pub recorded :
    BackfillJob
    → BackfillWorld
    → Option (Option BackfillJob)
    → Result BackfillError ℕ × BackfillWorld
recorded job w none = (err multiple_results, w)
recorded job w (some (some other)) = (err backfill_overlaps, w)
recorded job w (some none) = (ok job.id, record w { jobs = job ∷ w.jobs })

-- `BackfillService.submit`
unfoldable pub submit :
    (id monitor_id window_start window_end today : ℕ)
    → BackfillWorld
    → Result BackfillError ℕ × BackfillWorld
submit id monitor_id window_start window_end today w =
    if ltb window_end window_start || ltb today window_end
    then (err invalid_window, w)
    else recorded (new_backfill id monitor_id window_start window_end) w
        (scalar_one_or_none (filter (overlaps monitor_id window_start window_end) w.jobs))

-- `session.get(BackfillJob, …)`
abbrev pub find_job : ℕ → List BackfillJob → Option BackfillJob
find_job id [] = none
find_job id (j ∷ rest) = let later = find_job id rest in if j.id == id then some j else later

abbrev pub with_status : BackfillStatus → BackfillJob → BackfillJob
with_status status j = record j { status = status }

abbrev pub set_status : ℕ → BackfillStatus → List BackfillJob → List BackfillJob
set_status id status jobs = map (λ j. if j.id == id then with_status status j else j) jobs

abbrev pub backfill_key : (monitor_id date : ℕ) → RunKey
backfill_key monitor_id date = record {
  monitor_id = monitor_id;
  run_date = date;
  is_backfill = true;
}

-- The run of one date.
abbrev pub backfill_run : (id monitor_id date : ℕ) → IngestionRun
backfill_run id monitor_id date = record {
  id = id;
  monitor_id = monitor_id;
  run_date = date;
  is_backfill = true;
  status = pending;
  stage_status = λ _. none;
  finished_at = none;
}

module _ {S : Type 0} (collect_one_date : (run_id source_id : ℕ) → S → Bool × S) where
  -- The sources of one date: whether a call raised.
  unfoldable pub collect_date : (run_id : ℕ) → List MonitorSource → Bool → S → Bool × S
  collect_date run_id [] any_failed s = (any_failed, s)
  collect_date run_id (source ∷ rest) any_failed s =
      let (raised, s') = collect_one_date run_id source.id s in
      collect_date run_id rest (any_failed || raised) s'

  -- The `while current <= end`, by recursion on the number of dates that are left. The run of a date gets
  -- the identifier `ids` at the date.
  unfoldable pub run_dates :
      (ids : ℕ → ℕ) (monitor_id : ℕ)
      → List MonitorSource
      → (left current : ℕ) → Bool
      → List IngestionRun
      → S
      → Result BackfillError Bool × List IngestionRun × S
  run_dates ids monitor_id sources zero current any_failed runs s = (ok any_failed, runs, s)
  run_dates ids monitor_id sources (suc left) current any_failed runs s =
      let (failed, s') = collect_date (ids current) sources any_failed s in
      let rest =
        run_dates ids monitor_id sources left (current + 1) failed
          (backfill_run (ids current) monitor_id current ∷ runs) s' in
      if any (λ r. same_key (run_key r) (backfill_key monitor_id current)) runs
      then (err integrity_error, runs, s)
      else rest

  abbrev pub finished_backfill :
      (job_id : ℕ)
      → BackfillWorld
      → Result BackfillError Bool × List IngestionRun × S
      → Result BackfillError (Unit {0}) × BackfillWorld × S
  finished_backfill job_id w (err e, runs, s) = (err e, record w { runs = runs }, s)
  finished_backfill job_id w (ok any_failed, runs, s) = (
    ok tt,
    record w {
      runs = runs;
      jobs = set_status job_id (if any_failed then backfill_failed else backfill_complete) w.jobs;
    },
    s,
  )

  -- `BackfillService.run`
  unfoldable pub run :
      (ids : ℕ → ℕ) (job_id : ℕ)
      → BackfillWorld
      → S
      → Result BackfillError (Unit {0}) × BackfillWorld × S
  run ids job_id w s = elim (find_job job_id w.jobs) [
    | none ↦ (err job_missing, w, s)
    | some job ↦
        let started = record w { jobs = set_status job_id backfill_running w.jobs } in
        finished_backfill job_id started (
          run_dates ids job.monitor_id (filter (enabled_for job.monitor_id) w.sources)
            (job.window_end + 1 - job.window_start) job.window_start false w.runs s)
  ]
