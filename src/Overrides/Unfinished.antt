-- ===== src/Overrides/Unfinished.antt =====
-- A job whose branch raises is never finished, and stands in the way of the next.
use mlsc.Base.{
  ℕ, ◌+◌, ◌-◌, ◌≡◌, ◌∙◌, ◌≢◌, refl, sym, ap, subst, Option, none, some, Bool, true, false, ◌||◌,
  List, [], ◌∷◌, ◌==◌, ==_refl, ltb, if◌then◌else◌, arith, Result, ok, err, inl, inr, found_cases,
  Bool-cases, filter, any,
}
use mlsc.Models.Jobs.{
  OverrideKind, stage_rerun, backfill_window, retention_purge, OverrideStatus, OverrideParameters,
  window_parameters, OverrideJob, BackfillJob,
}
use mlsc.Runs.{SourceOutcome, scalar_one_or_none}
use mlsc.Backfill
use mlsc.Backfill.{
  BackfillWorld, BackfillError, integrity_error, invalid_window, new_backfill, find_job,
}
use mlsc.Backfill.Dates.{has_run, within}
use mlsc.Backfill.Ends.{run-Stuck}
use mlsc.Overrides.{
  Tools, OverrideRequest, OverrideWorld, OverrideError, same_kind, competes, selected, checked,
  submit,
}
use mlsc.Overrides.Task.{
  TaskError, backfill_raised, find_override, begun, change_job, collect_one_date, window_ended,
  run_backfill_window, branch, closed, run_override,
}

-- A job in flight of a monitor and a kind.
abbrev pub HasRival : (monitor_id : ℕ) → OverrideKind → List OverrideJob → Type 0
HasRival monitor_id kind jobs = any (competes monitor_id kind) jobs ≡ true

one_found :
    (test : OverrideJob → Bool) (jobs : List OverrideJob)
    → any test jobs ≡ true
    → scalar_one_or_none (filter test jobs) ≢ some none
one_found test [] h = absurd cc
one_found test (j ∷ rest) h = elim (Bool-cases (test j)) [
  | inl hit ↦ rw hit (not_none j (filter test rest))
  | inr miss ↦ rw miss (one_found test rest (ground (arith, miss)))
]
  where
    not_none : (k : OverrideJob) (ks : List OverrideJob) → scalar_one_or_none (k ∷ ks) ≢ some none
    not_none k [] e = absurd cc
    not_none k (l ∷ ks) e = absurd cc

selected-refused :
    (id monitor_id n : ℕ) (r : OverrideRequest) (w : OverrideWorld)
    (o : Option (Option OverrideJob))
    → o ≢ some none
    → (selected id monitor_id r w o).0 ≢ ok n
selected-refused id monitor_id n r w none there e = absurd cc
selected-refused id monitor_id n r w (some (some job)) there e = absurd cc
selected-refused id monitor_id n r w (some none) there e = absurd (there refl)

checked-refused :
    (id monitor_id n : ℕ) (r : OverrideRequest) (w : OverrideWorld)
    (c : Result OverrideError (Unit {0}))
    → HasRival monitor_id r.kind w.jobs
    → (checked id monitor_id r w c).0 ≢ ok n
checked-refused id monitor_id n r w (err e) rival = λ h. absurd cc
checked-refused id monitor_id n r w (ok fine) rival =
    selected-refused id monitor_id n r w
      (scalar_one_or_none (filter (competes monitor_id r.kind) w.jobs))
      (one_found (competes monitor_id r.kind) w.jobs rival)

pub submit-refused :
    (t : Tools) (id monitor_id today n : ℕ) (r : OverrideRequest) (w : OverrideWorld)
    → HasRival monitor_id r.kind w.jobs
    → (submit t id monitor_id today r w).0 ≢ ok n
unfolding submit
submit-refused t id monitor_id today n r w rival = checked-refused id monitor_id n r w _ rival

same_kind_refl : (kind : OverrideKind) → same_kind kind kind ≡ true
same_kind_refl stage_rerun = refl
same_kind_refl backfill_window = refl
same_kind_refl retention_purge = refl

begun-competes : (job : OverrideJob) → competes job.monitor_id job.kind (begun job) ≡ true
begun-competes job = rw (==_refl job.monitor_id, same_kind_refl job.kind) refl

-- The job that was begun competes.
begun-HasRival :
    (job_id : ℕ) (job : OverrideJob) (jobs : List OverrideJob)
    → find_override job_id jobs ≡ some job
    → HasRival job.monitor_id job.kind (change_job job_id begun jobs)
begun-HasRival job_id job [] found = absurd cc
begun-HasRival job_id job (j ∷ rest) found =
    elim (found_cases (j.id == job_id) j job (find_override job_id rest) found) [
      | inl (here, same) ↦ rw here (
          subst
            (λ x.
              (competes job.monitor_id job.kind (begun x)
                || any (competes job.monitor_id job.kind) (change_job job_id begun rest))
              ≡ true)
            (sym same) (rw (begun-competes job) refl))
      | inr (there, later) ↦ rw there (ground (arith, begun-HasRival job_id job rest later))
    ]

find_override-begun :
    (id : ℕ) (jobs : List OverrideJob) (job : OverrideJob)
    → find_override id jobs ≡ some job
    → find_override id (change_job id begun jobs) ≡ some (begun job)
find_override-begun id [] job found = absurd cc
find_override-begun id (j ∷ rest) job found =
    elim (found_cases (j.id == id) j job (find_override id rest) found) [
      | inl (here, same) ↦ rw (here, here) (ap (λ x. some (begun x)) same)
      | inr (there, later) ↦ rw (there, there) (find_override-begun id rest job later)
    ]

recorded-accepted :
    (job : BackfillJob) (n : ℕ) (b : BackfillWorld) (o : Option (Option BackfillJob))
    → (Backfill.recorded job b o).0 ≡ ok n
    → Backfill.recorded job b o ≡ (ok job.id, record b { jobs = job ∷ b.jobs })
recorded-accepted job n b none accepted = absurd cc
recorded-accepted job n b (some (some other)) accepted = absurd cc
recorded-accepted job n b (some none) accepted = refl

past_guard :
    (n : ℕ) (b : BackfillWorld) (bad : Bool) (r : Result BackfillError ℕ × BackfillWorld)
    → (if bad then (err invalid_window, b) else r).0 ≡ ok n
    → ((if bad then (err invalid_window, b) else r) ≡ r) × (r.0 ≡ ok n)
past_guard n b true r accepted = absurd cc
past_guard n b false r accepted = (refl, accepted)

submit-accepted :
    (id monitor_id first final today n : ℕ) (b : BackfillWorld)
    → (Backfill.submit id monitor_id first final today b).0 ≡ ok n
    → Backfill.submit id monitor_id first final today b
      ≡ (ok id, record b { jobs = new_backfill id monitor_id first final ∷ b.jobs })
unfolding Backfill.submit
submit-accepted id monitor_id first final today n b accepted =
    let (same, stored) = past_guard n b (ltb final first || ltb today final) _ accepted in
    same ∙ recorded-accepted (new_backfill id monitor_id first final) n b _ stored

-- What the branch of a window comes to where a date has its run.
window_ended-Stuck :
    {S : Type 0} (collect : (run_id source_id : ℕ) → S → Option SourceOutcome × S) (error_text : ℕ)
    (w : OverrideWorld)
    (r : Result BackfillError (Unit {0}) × BackfillWorld × (S × List SourceOutcome))
    → r.0 ≡ err integrity_error
    → ((window_ended collect error_text w r).0 ≡ err (backfill_raised integrity_error))
      × ((window_ended collect error_text w r).1.jobs ≡ w.jobs)
window_ended-Stuck collect error_text w (err e, b, (s, outcomes)) raised = (cc, refl)
window_ended-Stuck collect error_text w (ok u, b, (s, outcomes)) raised = absurd cc

found_new : (job : BackfillJob) (jobs : List BackfillJob) → find_job job.id (job ∷ jobs) ≡ some job
found_new job jobs = rw (==_refl job.id) refl

run_backfill_window-Stuck :
    {S : Type 0} (collect : (run_id source_id : ℕ) → S → Option SourceOutcome × S) (error_text : ℕ)
    (ids : ℕ → ℕ) (id monitor_id first final today date n : ℕ) (w : OverrideWorld) (s : S)
    → (Backfill.submit id monitor_id first final today w.backfill).0 ≡ ok n
    → within (final + 1 - first) first date ≡ true
    → has_run monitor_id date w.backfill.runs ≡ true
    → let (result, w', s') =
        run_backfill_window collect error_text ids id monitor_id first final today w s in
      (result ≡ err (backfill_raised integrity_error)) × (w'.jobs ≡ w.jobs)
unfolding run_backfill_window
run_backfill_window-Stuck collect error_text ids id monitor_id first final today date n w s accepted
      inside taken =
    let job = new_backfill id monitor_id first final in
    let b = record (w.backfill) { jobs = job ∷ w.backfill.jobs } in
    rw (submit-accepted id monitor_id first final today n w.backfill accepted) (
      window_ended-Stuck collect error_text w _
        (run-Stuck (collect_one_date collect error_text) ids id date job b (s, [])
          (found_new job w.backfill.jobs) inside taken).0)

closed-Stuck :
    {S : Type 0} (collect : (run_id source_id : ℕ) → S → Option SourceOutcome × S)
    (error_text job_id now : ℕ) (jobs : List OverrideJob)
    (r : Result TaskError OverrideStatus × OverrideWorld × S) (e : TaskError)
    → (r.0 ≡ err e) × (r.1.jobs ≡ jobs)
    → ((closed collect error_text job_id now r).0 ≡ err e)
      × ((closed collect error_text job_id now r).1.jobs ≡ jobs)
closed-Stuck collect error_text job_id now jobs (err f, w, s) e (raised, same) = (cc, same)
closed-Stuck collect error_text job_id now jobs (ok status, w, s) e (raised, same) = absurd cc

branch-window :
    {S : Type 0} (collect : (run_id source_id : ℕ) → S → Option SourceOutcome × S) (error_text : ℕ)
    (t : Tools) (ids : ℕ → ℕ) (backfill_id today first final : ℕ) (rerun : Option OverrideStatus)
    (monitor_id : ℕ) (kind : OverrideKind) (of_kind : OverrideParameters) (w : OverrideWorld)
    (s : S)
    → kind ≡ backfill_window
    → of_kind ≡ window_parameters first final
    → branch collect error_text t ids backfill_id today rerun monitor_id kind of_kind w s
      ≡ run_backfill_window collect error_text ids backfill_id monitor_id first final today w s
branch-window collect error_text t ids backfill_id today first final rerun monitor_id kind of_kind w
      s is_window same =
    rw (is_window, same) refl

-- If a job to backfill a window is run, the backfill itself is accepted, and a date of the window
-- already has a backfill run, then `run_override` raises the error of the unique constraint and leaves
-- the job running; in the state that it leaves, every submission of a job of this kind for the monitor
-- is refused, on every day and with any parameters.
pub run_override-Stuck :
    {S : Type 0} (collect : (run_id source_id : ℕ) → S → Option SourceOutcome × S) (error_text : ℕ)
    (t : Tools) (ids : ℕ → ℕ) (backfill_id job_id today now first final date n : ℕ)
    (rerun : Option OverrideStatus) (job : OverrideJob) (w : OverrideWorld) (s : S)
    → find_override job_id w.jobs ≡ some job
    → job.kind ≡ backfill_window
    → job.parameters ≡ window_parameters first final
    → (Backfill.submit backfill_id job.monitor_id first final today w.backfill).0 ≡ ok n
    → within (final + 1 - first) first date ≡ true
    → has_run job.monitor_id date w.backfill.runs ≡ true
    → let (result, w', s') =
        run_override collect error_text t ids backfill_id job_id today now rerun w s in
      (result ≡ err (backfill_raised integrity_error))
      × (find_override job_id w'.jobs ≡ some (begun job))
      × ((id later k : ℕ) (r : OverrideRequest)
          → (submit t id job.monitor_id later (record r { kind = job.kind }) w').0 ≢ ok k)
unfolding run_override
run_override-Stuck collect error_text t ids backfill_id job_id today now first final date n rerun
      job w s found is_window of_window accepted inside taken =
    let started = record w { jobs = change_job job_id begun w.jobs } in
    let (raised, same) =
      closed-Stuck collect error_text job_id now (change_job job_id begun w.jobs) _
        (backfill_raised integrity_error)
        (run_backfill_window-Stuck collect error_text ids backfill_id job.monitor_id first final
          today date n started s accepted inside taken) in
    let whole : run_override collect error_text t ids backfill_id job_id today now rerun w s
        ≡ closed collect error_text job_id now (
            run_backfill_window collect error_text ids backfill_id job.monitor_id first final today
              started s) =
      rw (run_override, found)
        (ap (closed collect error_text job_id now) (
          branch-window collect error_text t ids backfill_id today first final rerun job.monitor_id
            job.kind job.parameters started s is_window of_window)) in
    rw whole (
      raised,
      ap (find_override job_id) same ∙ find_override-begun job_id w.jobs job found,
      (λ id later k r.
          submit-refused t id job.monitor_id later k (record r { kind = job.kind }) _
            (subst (HasRival job.monitor_id job.kind) (sym same)
              (begun-HasRival job_id job w.jobs found))),
    )
