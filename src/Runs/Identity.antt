-- ===== src/Runs/Identity.antt =====
-- One row for each monitor, date and mode.
use mlsc.Base.{
  any, ◌≡◌, ◌≢◌, refl, sym, subst, ℕ, Option, none, some, is_some, Bool, true, false, List, [], ◌∷◌,
  ◌==◌, arith, err, All, inl, inr, Bool-cases, if◌then◌else◌,
}
use mlsc.Models.{IngestionRun}
use mlsc.Locks.{RunKey, same_key}
use mlsc.Locks.Exclusion.{same_key-eq}
use mlsc.Runs.{
  runnable, enabled_for, RunWorld, multiple_results, run_key, scalar_one_or_none, select_runs,
  new_run, start_run, selected, start, find_run,
}

-- Two rows differ in their identity and in their identifier.
abbrev pub Apart : IngestionRun → IngestionRun → Type 0
Apart r s = (same_key (run_key s) (run_key r) ≡ false) × ((s.id == r.id) ≡ false)

abbrev pub DistinctRuns : List IngestionRun → Type 0
DistinctRuns [] = Unit
DistinctRuns (r ∷ rest) = All (Apart r) rest × DistinctRuns rest

abbrev pub Unlisted : RunKey → List IngestionRun → Type 0
Unlisted key runs = All (λ s. same_key (run_key s) key ≡ false) runs

pub Apart-Unlisted :
    (r : IngestionRun) (rest : List IngestionRun) → All (Apart r) rest → Unlisted (run_key r) rest
Apart-Unlisted r [] h = tt
Apart-Unlisted r (s ∷ rest) h = (h.0.0, Apart-Unlisted r rest h.1)

pub select_runs-Unlisted :
    (key : RunKey) (runs : List IngestionRun) → Unlisted key runs → select_runs key runs ≡ []
select_runs-Unlisted key [] h = refl
select_runs-Unlisted key (r ∷ rest) h = rw h.0 (select_runs-Unlisted key rest h.1)

kept_none :
    (kept : Bool) (r : IngestionRun) (rest : List IngestionRun)
    → (if kept then r ∷ rest else rest) ≡ []
    → (kept ≡ false) × (rest ≡ [])
kept_none true r rest h = cc
kept_none false r rest h = (refl, h)

Unlisted-select_runs :
    (key : RunKey) (runs : List IngestionRun) → select_runs key runs ≡ [] → Unlisted key runs
Unlisted-select_runs key [] h = tt
Unlisted-select_runs key (r ∷ rest) h =
    let (apart, later) = kept_none (same_key (run_key r) key) r (select_runs key rest) h in
    (apart, Unlisted-select_runs key rest later)

pub scalar_one_or_none-none :
    (runs : List IngestionRun) → scalar_one_or_none runs ≡ some none → runs ≡ []
scalar_one_or_none-none [] h = refl
scalar_one_or_none-none (r ∷ []) h = cc
scalar_one_or_none-none (r ∷ s ∷ rest) h = cc

find_run-none :
    (id : ℕ) (runs : List IngestionRun)
    → find_run id runs ≡ none
    → All (λ s. (s.id == id) ≡ false) runs
find_run-none id [] h = tt
find_run-none id (r ∷ rest) h = ground (arith, find_run-none id rest)

-- The query for a key finds at most one row.
select_runs-one :
    (key : RunKey) (runs : List IngestionRun)
    → DistinctRuns runs
    → is_some (scalar_one_or_none (select_runs key runs)) ≡ true
select_runs-one key [] distinct = refl
select_runs-one key (r ∷ rest) distinct = elim (Bool-cases (same_key (run_key r) key)) [
  | inl same ↦ rw same (
      rw
        (select_runs-Unlisted key rest (
          subst (λ k. Unlisted k rest) (same_key-eq (run_key r) key same)
            (Apart-Unlisted r rest distinct.0)))
        refl)
  | inr apart ↦ rw apart (select_runs-one key rest distinct.1)
]

new_run-Apart :
    (id : ℕ) (key : RunKey) (runs : List IngestionRun)
    → Unlisted key runs
    → All (λ s. (s.id == id) ≡ false) runs
    → All (Apart (new_run id key)) runs
new_run-Apart id key [] unlisted unused = tt
new_run-Apart id key (r ∷ rest) unlisted unused =
    ((unlisted.0, unused.0), new_run-Apart id key rest unlisted.1 unused.1)

-- From the query on, a run's row is not touched.
pub start_run-keeps :
    (token : ℕ) (key : RunKey) (run : IngestionRun) (w : RunWorld)
    → ((start_run token key run w).1.runs ≡ w.runs)
      × ((start_run token key run w).0 ≢ err multiple_results)
unfolding start_run
start_run-keeps token key run w = ground arith

selected-DistinctRuns :
    (id token : ℕ) (key : RunKey) (w : RunWorld) (found : Option (Option IngestionRun))
    → found ≡ scalar_one_or_none (select_runs key w.runs)
    → DistinctRuns w.runs
    → find_run id w.runs ≡ none
    → DistinctRuns (selected id token key w found).1.runs
      × ((selected id token key w found).0 ≢ err multiple_results)
selected-DistinctRuns id token key w none e distinct fresh =
    absurd (ground (arith, select_runs-one key w.runs distinct))
selected-DistinctRuns id token key w (some (some run)) e distinct fresh =
    let (kept, fine) = start_run-keeps token key run w in (rw kept distinct, fine)
selected-DistinctRuns id token key w (some none) e distinct fresh =
    let added = record w { runs = new_run id key ∷ w.runs } in
    let (kept, fine) = start_run-keeps token key (new_run id key) added in
    let unlisted =
      Unlisted-select_runs key w.runs (scalar_one_or_none-none (select_runs key w.runs) (sym e)) in
    (rw kept (new_run-Apart id key w.runs unlisted (find_run-none id w.runs fresh), distinct), fine)

-- If all runs differ, in their identifiers and in their monitor, date and mode, and the identifier for
-- a new row is unused, then `start` leaves only runs that differ, and its query never finds two.
pub start-DistinctRuns :
    (id token : ℕ) (key : RunKey) (w : RunWorld)
    → DistinctRuns w.runs
    → find_run id w.runs ≡ none
    → DistinctRuns (start id token key w).1.runs × ((start id token key w).0 ≢ err multiple_results)
unfolding start
start-DistinctRuns id token key w distinct fresh =
    elim (Bool-cases (runnable (w.monitors key.monitor_id))) [
      | inl r ↦ elim (Bool-cases (any (enabled_for key.monitor_id) w.sources)) [
        | inl s ↦
            rw (r, s)
              (selected-DistinctRuns id token key w (scalar_one_or_none (select_runs key w.runs))
                refl distinct fresh)
        | inr s ↦ rw (r, s) (distinct, λ e. cc)
      ]
      | inr r ↦ rw r (distinct, λ e. cc)
    ]
