-- ===== src/Runs/Finalisation.antt =====
-- What `finalise` leaves: the freed lock, and a run that is not started again.
use mlsc.Base.{
  found_cases, ◌≡◌, ◌≢◌, refl, ◌∙◌, ap, subst, ℕ, none, some, Bool, true, false, List, [], ◌∷◌,
  ◌==◌, arith, ok, All, any, inl, inr, Bool-cases, Option-cases,
}
use mlsc.Models.{IngestionRun, RunStatus}
use mlsc.Locks.{RunKey, same_key, Locks, current_token}
use mlsc.Locks.Exclusion.{same_key-eq, same_key_refl, release-held, release-other}
use mlsc.Runs.{
  SourceOutcome, classify, is_final, runnable, enabled_for, release_current, finalise, RunWorld,
  run_key, select_runs, start, find_run, finished, finish_run,
}
use mlsc.Runs.Identity.{Apart, DistinctRuns, Unlisted, Apart-Unlisted, select_runs-Unlisted}
use mlsc.Runs.Lifecycle.{Reaches, start-Reaches, start_run-final}

pub release_current-frees :
    (now : ℕ) (key : RunKey) (locks : Locks)
    → current_token now key (release_current now key locks) ≡ none
unfolding release_current current_token
release_current-frees now key locks = elim (Option-cases (current_token now key locks)) [
  | inl free ↦ rw (release_current, free) free
  | inr (held, h) ↦
      rw (release_current, h, release-held now held key locks h)
        (rw (current_token, same_key_refl key) refl)
]

release_current-other :
    (now : ℕ) (key other : RunKey) (locks : Locks)
    → same_key other key ≡ false
    → release_current now key locks other ≡ locks other
unfolding release_current
release_current-other now key other locks apart =
    elim (Option-cases (current_token now key locks)) [
      | inl free ↦ rw (release_current, free) refl
      | inr (held, h) ↦ rw (release_current, h) (release-other held now key other locks apart)
    ]

-- `finalise` of a run that exists returns the status of its outcomes and frees the run's lock, whoever
-- holds it; it touches no other lock and dispatches nothing.
pub finalise-frees :
    (run_id : ℕ) (outcomes : List SourceOutcome) (expected_volume : Bool) (w : RunWorld)
    (run : IngestionRun)
    → find_run run_id w.runs ≡ some run
    → let (result, w') = finalise run_id outcomes expected_volume w in
      (result ≡ ok (classify outcomes expected_volume))
      × (current_token w'.now (run_key run) w'.locks ≡ none)
      × ((other : RunKey) → same_key other (run_key run) ≡ false → w'.locks other ≡ w.locks other)
      × (w'.dispatched ≡ w.dispatched)
unfolding finalise
finalise-frees run_id outcomes expected_volume w run found =
    rw (finalise, found)
      (
        refl,
        release_current-frees w.now (run_key run) w.locks,
        λ other apart. release_current-other w.now (run_key run) other w.locks apart,
        refl,
      )

-- The row that is left, by identifier, is found by its key.
finish_run-Unlisted :
    (key : RunKey) (id : ℕ) (status : RunStatus) (now : ℕ) (runs : List IngestionRun)
    → Unlisted key runs
    → Unlisted key (finish_run id status now runs)
finish_run-Unlisted key id status now [] h = tt
finish_run-Unlisted key id status now (r ∷ rest) h = elim (Bool-cases (r.id == id)) [
  | inl e ↦ rw e (h.0, finish_run-Unlisted key id status now rest h.1)
  | inr e ↦ rw e (h.0, finish_run-Unlisted key id status now rest h.1)
]

classify-is_final :
    (outcomes : List SourceOutcome) (expected_volume : Bool)
    → is_final (classify outcomes expected_volume) ≡ true
unfolding classify
classify-is_final outcomes expected_volume = ground arith

same_key-apart : (a b : RunKey) → same_key a b ≡ false → same_key b a ≡ false
same_key-apart a b apart = elim (Bool-cases (same_key b a)) [
  | inl same ↦ absurd (
      subst (λ k. same_key k b ≢ false) (same_key-eq b a same)
        (λ e. ground (arith, same_key_refl b)) apart)
  | inr h ↦ h
]

find_run-Apart :
    (id : ℕ) (r run : IngestionRun) (runs : List IngestionRun)
    → find_run id runs ≡ some run
    → All (Apart r) runs
    → Apart r run
find_run-Apart id r run [] found apart = absurd cc
find_run-Apart id r run (s ∷ rest) found apart =
    elim (found_cases (s.id == id) s run (find_run id rest) found) [
      | inl (here, same) ↦ subst (Apart r) same apart.0
      | inr (e, later) ↦ find_run-Apart id r run rest later apart.1
    ]

find_run-finish_run :
    (id : ℕ) (status : RunStatus) (now : ℕ) (run : IngestionRun) (runs : List IngestionRun)
    → DistinctRuns runs
    → find_run id runs ≡ some run
    → select_runs (run_key run) (finish_run id status now runs) ≡ finished status now run ∷ []
find_run-finish_run id status now run [] distinct found = absurd cc
find_run-finish_run id status now run (r ∷ rest) distinct found =
    elim (found_cases (r.id == id) r run (find_run id rest) found) [
      | inl (here, same) ↦
          subst
            (λ x.
              select_runs (run_key x) (finish_run id status now (r ∷ rest))
              ≡ finished status now x ∷ [])
            same
            (rw here (
              rw (same_key_refl (run_key r)) (
                ap (λ later. finished status now r ∷ later)
                  (select_runs-Unlisted (run_key r) (finish_run id status now rest) (
                    finish_run-Unlisted (run_key r) id status now rest
                      (Apart-Unlisted r rest distinct.0))))))
      | inr (e, later) ↦ rw e (
          rw
            (same_key-apart (run_key run) (run_key r)
              (find_run-Apart id r run rest later distinct.0).0)
            (find_run-finish_run id status now run rest distinct.1 later))
    ]

-- If all runs differ, in their identifiers and keys, a run that was finalised is not dispatched again: as long as its monitor is
-- active and has an enabled source, `start` for its monitor, date and mode returns it at once, at any
-- time later, and changes nothing.
pub start-finalised :
    (run_id : ℕ) (outcomes : List SourceOutcome) (expected_volume : Bool) (w : RunWorld)
    (run : IngestionRun) (id token later : ℕ)
    → DistinctRuns w.runs
    → find_run run_id w.runs ≡ some run
    → runnable (w.monitors run.monitor_id) ≡ true
    → any (enabled_for run.monitor_id) w.sources ≡ true
    → let w' = record ((finalise run_id outcomes expected_volume w).1) { now = later } in
      start id token (run_key run) w' ≡ (ok run.id, w')
unfolding finalise
start-finalised run_id outcomes expected_volume w run id token later distinct found r s =
    let status = classify outcomes expected_volume in
    let w' = record ((finalise run_id outcomes expected_volume w).1) { now = later } in
    let last = finished status w.now run in
    let row = find_run-finish_run run_id status w.now run w.runs distinct found in
    let reaches : Reaches (run_key run) last w' = rw (finalise, found) (r, s, rw row refl) in
    start-Reaches (run_key run) id token last w' reaches
    ∙ start_run-final (run_key run) token last w' (classify-is_final outcomes expected_volume)
