-- ===== src/Backfill/Dates.antt =====
-- `BackfillService.run`: one run for each date of the window, or a job that is never finished.
use mlsc.Base.{
  ℕ, zero, suc, ◌+◌, ◌≡◌, ◌∙◌, refl, subst, Option, none, some, Bool, true, false, ◌&&◌, ◌||◌, List,
  ◌∷◌, ◌==◌, ==_iff, ==_refl, ltb, leb, arith, Result, ok, err, inl, inr, Bool-cases, any, length,
}
use mlsc.Models.{MonitorSource, IngestionRun}
use mlsc.Locks.{same_key}
use mlsc.Runs.{run_key}
use mlsc.Backfill.{
  BackfillError, integrity_error, backfill_key, backfill_run, collect_date, run_dates,
}

-- Whether the monitor has a backfill run of a date.
abbrev pub has_run : (monitor_id date : ℕ) → List IngestionRun → Bool
has_run monitor_id date runs = any (λ r. same_key (run_key r) (backfill_key monitor_id date)) runs

-- Whether a date is one of so many dates from a first one.
abbrev pub within : (left first date : ℕ) → Bool
within left first date = leb first date && ltb date (first + left)

-- No date of the window has a backfill run.
abbrev pub IsFree : (monitor_id left first : ℕ) → List IngestionRun → Type 0
IsFree monitor_id left first runs =
    (date : ℕ) → within left first date ≡ true → has_run monitor_id date runs ≡ false

abbrev pub failed_result :
    {S : Type 0} → Result BackfillError Bool × List IngestionRun × S → Option BackfillError
failed_result (ok any_failed, runs, s) = none
failed_result (err e, runs, s) = some e

same_key-date :
    (monitor_id a b : ℕ)
    → same_key (backfill_key monitor_id a) (backfill_key monitor_id b) ≡ (a == b)
same_key-date monitor_id a b = ground (arith, ==_refl monitor_id)

nothing_within : (first date : ℕ) → within 0 first date ≡ false
nothing_within first date = ground arith

within_first : (left first : ℕ) → within (suc left) first first ≡ true
within_first left first = ground arith

within-suc :
    (left first date : ℕ)
    → within (suc left) first date ≡ ((first == date) || within left (first + 1) date)
within-suc left first date = ground arith

later_date : (left first date : ℕ) → within left (first + 1) date ≡ true → (first == date) ≡ false
later_date left first date inside = ground arith

rest_within :
    (left first date : ℕ)
    → (first == date) ≡ false
    → within (suc left) first date ≡ true
    → within left (first + 1) date ≡ true
rest_within left first date other inside = ground arith

or_swap : (a b c : Bool) → (a || (b || c)) ≡ ((b || a) || c)
or_swap a b c = ground arith

module _ {S : Type 0} (collect_one_date : (run_id source_id : ℕ) → S → Bool × S) (ids : ℕ → ℕ)
    (monitor_id : ℕ) (sources : List MonitorSource) where
  -- What the loop leaves of free dates.
  abbrev Dated :
      (left current : ℕ)
      → List IngestionRun
      → Result BackfillError Bool × List IngestionRun × S
      → Type 0
  Dated left current runs after =
      (failed_result after ≡ none)
      × (length after.1 ≡ length runs + left)
      × ((date : ℕ)
          → has_run monitor_id date after.1
            ≡ (within left current date || has_run monitor_id date runs))

  pub run_dates-Dated :
      (left current : ℕ) (any_failed : Bool) (runs : List IngestionRun) (s : S)
      → IsFree monitor_id left current runs
      → Dated left current runs
          (run_dates collect_one_date ids monitor_id sources left current any_failed runs s)
  unfolding run_dates
  run_dates-Dated zero current any_failed runs s free =
      (refl, omega arith, λ date. rw (nothing_within current date) refl)
  run_dates-Dated (suc left) current any_failed runs s free =
      let next = collect_date collect_one_date (ids current) sources any_failed s in
      let runs' = backfill_run (ids current) monitor_id current ∷ runs in
      let (fine, number, dates) =
        run_dates-Dated left (current + 1) next.0 runs' next.1 (λ date inside.
          rw (same_key-date monitor_id current date, later_date left current date inside)
            (free date (rw (within-suc left current date, inside) (ground arith)))) in
      rw (free current (within_first left current)) (
        fine,
        omega (arith, number),
        λ date.
            dates date
            ∙ rw (same_key-date monitor_id current date, within-suc left current date)
                (or_swap (within left (current + 1) date) (current == date)
                  (has_run monitor_id date runs)),
      )

  pub run_dates-taken :
      (left current date : ℕ) (any_failed : Bool) (runs : List IngestionRun) (s : S)
      → within left current date ≡ true
      → has_run monitor_id date runs ≡ true
      → failed_result
          (run_dates collect_one_date ids monitor_id sources left current any_failed runs s)
        ≡ some integrity_error
  unfolding run_dates
  run_dates-taken zero current date any_failed runs s inside taken = absurd (ground arith)
  run_dates-taken (suc left) current date any_failed runs s inside taken =
      elim (Bool-cases (has_run monitor_id current runs)) [
        | inl here ↦ rw here refl
        | inr free ↦ rw free (elim (Bool-cases (current == date)) [
          | inl same ↦ absurd (
              ground (
                arith,
                subst (λ d. has_run monitor_id d runs ≡ false) ((==_iff current date).0 same) free,
              ))
          | inr other ↦
              let next = collect_date collect_one_date (ids current) sources any_failed s in
              run_dates-taken left (current + 1) date next.0
                (backfill_run (ids current) monitor_id current ∷ runs) next.1
                (rest_within left current date other inside)
                (rw (same_key-date monitor_id current date, other) taken)
        ])
      ]
