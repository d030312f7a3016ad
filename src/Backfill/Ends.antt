-- ===== src/Backfill/Ends.antt =====
-- How `BackfillService.run` ends: a finished job, or one that stays as it was begun.
use mlsc.Base.{
  ℕ, ◌+◌, ◌-◌, ◌≡◌, refl, ap, none, some, Bool, true, false, ◌||◌, List, [], ◌∷◌, ◌==◌,
  if◌then◌else◌, arith, Result, ok, err, inl, inr, found_cases, filter, length,
}
use mlsc.Models.{IngestionRun}
use mlsc.Models.Jobs.{
  BackfillStatus, backfill_running, backfill_complete, backfill_failed, BackfillJob,
}
use mlsc.Runs.{enabled_for}
use mlsc.Backfill.{
  BackfillWorld, BackfillError, integrity_error, is_backfill_in_flight, find_job, with_status,
  set_status, finished_backfill, run,
}
use mlsc.Backfill.Dates.{has_run, within, IsFree, failed_result, run_dates-Dated, run_dates-taken}

find_job-set_status :
    (id : ℕ) (status : BackfillStatus) (jobs : List BackfillJob) (job : BackfillJob)
    → find_job id jobs ≡ some job
    → find_job id (set_status id status jobs) ≡ some (with_status status job)
find_job-set_status id status [] job found = absurd cc
find_job-set_status id status (j ∷ rest) job found =
    elim (found_cases (j.id == id) j job (find_job id rest) found) [
      | inl (here, same) ↦ rw (here, here) (ap (λ x. some (with_status status x)) same)
      | inr (there, later) ↦ rw (there, there) (find_job-set_status id status rest job later)
    ]

abbrev started : (job_id : ℕ) → BackfillWorld → BackfillWorld
started job_id w = record w { jobs = set_status job_id backfill_running w.jobs }

module _ {S : Type 0} (job_id : ℕ) (job : BackfillJob) (w : BackfillWorld)
    (found : find_job job_id w.jobs ≡ some job) where
  -- The loop ended.
  abbrev pub Collected : (left : ℕ) → Result BackfillError (Unit {0}) × BackfillWorld × S → Type 0
  Collected left (result, w', s') =
      (result ≡ ok tt)
      × (length w'.runs ≡ length w.runs + left)
      × ((date : ℕ)
          → has_run job.monitor_id date w'.runs
            ≡ (within left job.window_start date || has_run job.monitor_id date w.runs))
      × (status : BackfillStatus) × (find_job job_id w'.jobs ≡ some (with_status status job))
      × (is_backfill_in_flight status ≡ false)

  -- It did not.
  abbrev pub Stuck : Result BackfillError (Unit {0}) × BackfillWorld × S → Type 0
  Stuck (result, w', s') =
      (result ≡ err integrity_error)
      × (find_job job_id w'.jobs ≡ some (with_status backfill_running job))

  finished-Collected :
      (collect_one_date : (run_id source_id : ℕ) → S → Bool × S) (left : ℕ)
      (after : Result BackfillError Bool × List IngestionRun × S)
      → (failed_result after ≡ none)
        × (length after.1 ≡ length w.runs + left)
        × ((date : ℕ)
            → has_run job.monitor_id date after.1
              ≡ (within left job.window_start date || has_run job.monitor_id date w.runs))
      → Collected left (finished_backfill collect_one_date job_id (started job_id w) after)
  finished-Collected collect_one_date left (err e, runs, s) (fine, number, dates) = absurd cc
  finished-Collected collect_one_date left (ok any_failed, runs, s) (fine, number, dates) =
      let status = if any_failed then backfill_failed else backfill_complete in
      let begun = find_job-set_status job_id backfill_running w.jobs job found in
      (
        refl,
        number,
        dates,
        status,
        find_job-set_status job_id status (set_status job_id backfill_running w.jobs)
            (with_status backfill_running job) begun,
        ground arith,
      )

  finished-Stuck :
      (collect_one_date : (run_id source_id : ℕ) → S → Bool × S)
      (after : Result BackfillError Bool × List IngestionRun × S)
      → failed_result after ≡ some integrity_error
      → Stuck (finished_backfill collect_one_date job_id (started job_id w) after)
  finished-Stuck collect_one_date (ok any_failed, runs, s) failed = absurd cc
  finished-Stuck collect_one_date (err e, runs, s) failed =
      (cc, find_job-set_status job_id backfill_running w.jobs job found)

abbrev pub days : BackfillJob → ℕ
days job = job.window_end + 1 - job.window_start

-- If the job is there, and its monitor has no backfill run of a date of its window, then `run` returns:
-- there is one more run for each date of the window, each date of the window has a backfill run, no
-- other date has got one, and the job is complete or failed.
pub run-Collected :
    {S : Type 0} (collect_one_date : (run_id source_id : ℕ) → S → Bool × S) (ids : ℕ → ℕ)
    (job_id : ℕ) (job : BackfillJob) (w : BackfillWorld) (s : S)
    → (found : find_job job_id w.jobs ≡ some job)
    → IsFree job.monitor_id (days job) job.window_start w.runs
    → Collected job_id job w found (days job) (run collect_one_date ids job_id w s)
unfolding run
run-Collected collect_one_date ids job_id job w s found free =
    rw (run, found)
      (finished-Collected job_id job w found collect_one_date (days job) _ (
        run_dates-Dated collect_one_date ids job.monitor_id
          (filter (enabled_for job.monitor_id) w.sources) (days job) job.window_start false w.runs s
          free))

pub run-Stuck :
    {S : Type 0} (collect_one_date : (run_id source_id : ℕ) → S → Bool × S) (ids : ℕ → ℕ)
    (job_id date : ℕ) (job : BackfillJob) (w : BackfillWorld) (s : S)
    → (found : find_job job_id w.jobs ≡ some job) → within (days job) job.window_start date ≡ true
    → has_run job.monitor_id date w.runs ≡ true
    → Stuck job_id job w found (run collect_one_date ids job_id w s)
unfolding run
run-Stuck collect_one_date ids job_id date job w s found inside taken =
    rw (run, found)
      (finished-Stuck job_id job w found collect_one_date _ (
        run_dates-taken collect_one_date ids job.monitor_id
          (filter (enabled_for job.monitor_id) w.sources) (days job) job.window_start date false
          w.runs s inside taken))
