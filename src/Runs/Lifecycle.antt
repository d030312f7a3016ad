-- ===== src/Runs/Lifecycle.antt =====
-- Starting a run, and starting it again while its lock is held.
use mlsc.Base.{
  ◌≡◌, refl, sym, ap, subst, ◌⊎◌, ◌+◌, ◌<◌, ℕ, Option, none, some, is_some, true, false, ◌∷◌, arith,
  Result, ok, err, any, inl, inr, Bool-cases, Option-cases, lt→ltb,
}
use mlsc.Models.{IngestionRun}
use mlsc.Locks.{RunKey, Locks, update_lock, current_token}
use mlsc.Locks.Exclusion.{same_key_refl, acquire-free, acquire-busy}
use mlsc.Runs.{
  lock_ttl_seconds, is_final, runnable, enabled_for, RunWorld, StartError, run_already_active,
  scalar_one_or_none, select_runs, new_run, start_run, selected, start,
}
use mlsc.Runs.Identity.{scalar_one_or_none-none}

module _ (key : RunKey) where
  -- A call for the key reaches the row.
  abbrev pub Reaches : IngestionRun → RunWorld → Type 0
  Reaches run w =
      (runnable (w.monitors key.monitor_id) ≡ true)
      × (any (enabled_for key.monitor_id) w.sources ≡ true)
      × (scalar_one_or_none (select_runs key w.runs) ≡ some (some run))

  pub start-Reaches :
      (id token : ℕ) (run : IngestionRun) (w : RunWorld)
      → Reaches run w
      → start id token key w ≡ start_run token key run w
  unfolding start
  start-Reaches id token run w (r, s, q) = rw (start, r, s, q) refl

  pub start_run-final :
      (token : ℕ) (run : IngestionRun) (w : RunWorld)
      → is_final run.status ≡ true
      → start_run token key run w ≡ (ok run.id, w)
  unfolding start_run
  start_run-final token run w final = rw (start_run, final) refl

  start_run-busy :
      (token : ℕ) (run : IngestionRun) (w : RunWorld) (held : ℕ)
      → is_final run.status ≡ false
      → current_token w.now key w.locks ≡ some held
      → start_run token key run w ≡ (err (run_already_active run.id), w)
  unfolding start_run
  start_run-busy token run w held open_run busy =
      rw (start_run, open_run, acquire-busy token lock_ttl_seconds w.now key w.locks held busy) refl

  -- The run is over, or its lock is held at a time.
  abbrev Settled : (at : ℕ) → IngestionRun → RunWorld → Type 0
  Settled at run w =
      (is_final run.status ≡ true)
      ⊎ ((is_final run.status ≡ false) × is_some (current_token at key w.locks) ≡ true)

  abbrev acquired : (token : ℕ) → RunWorld → Locks
  acquired token w =
      update_lock w.locks key
        (some (record { token = token; expires_at = w.now + lock_ttl_seconds }))

  start_run-free :
      (token : ℕ) (run : IngestionRun) (w : RunWorld)
      → is_final run.status ≡ false
      → current_token w.now key w.locks ≡ none
      → start_run token key run w
        ≡ (ok run.id, record w { locks = acquired token w; dispatched = run.id ∷ w.dispatched })
  unfolding start_run
  start_run-free token run w open_run free =
      rw (start_run, open_run, acquire-free token lock_ttl_seconds w.now key w.locks free) refl

  acquired-held :
      (token : ℕ) (w : RunWorld) (seconds : ℕ)
      → seconds < lock_ttl_seconds
      → current_token (w.now + seconds) key (acquired token w) ≡ some token
  unfolding current_token
  acquired-held token w seconds early =
      rw (current_token, same_key_refl key)
        (rw (lt→ltb (w.now + seconds) (w.now + lock_ttl_seconds) (omega arith)) refl)

  -- A start that returns leaves the run settled, and nothing else that it reads changed.
  abbrev Leaves :
      (seconds run_id : ℕ) → IngestionRun → RunWorld → Result StartError ℕ × RunWorld → Type 0
  Leaves seconds run_id run w (answer, w') =
      answer ≡ ok run_id
      → (run.id ≡ run_id)
        × Settled (w.now + seconds) run w'
        × (w'.monitors ≡ w.monitors)
        × (w'.sources ≡ w.sources)
        × (w'.runs ≡ w.runs)

  start_run-Leaves :
      (token : ℕ) (run : IngestionRun) (w : RunWorld) (run_id seconds : ℕ)
      → seconds < lock_ttl_seconds
      → Leaves seconds run_id run w (start_run token key run w)
  start_run-Leaves token run w run_id seconds early = elim (Bool-cases (is_final run.status)) [
    | inl final ↦
        subst (Leaves seconds run_id run w) (sym (start_run-final token run w final))
          (λ e. (cc, inl final, refl, refl, refl))
    | inr open_run ↦ elim (Option-cases (current_token w.now key w.locks)) [
      | inl free ↦
          subst (Leaves seconds run_id run w) (sym (start_run-free token run w open_run free)) (λ e.
            (
              cc,
              inr (open_run, ap is_some (acquired-held token w seconds early)),
              refl,
              refl,
              refl,
            ))
      | inr (held, busy) ↦
          subst (Leaves seconds run_id run w) (sym (start_run-busy token run w held open_run busy))
            (λ e. absurd cc)
    ]
  ]

  -- A later call, as long as the run is settled, changes nothing.
  abbrev Answers : (run_id : ℕ) → RunWorld → Result StartError ℕ × RunWorld → Type 0
  Answers run_id w answer =
      (answer ≡ (ok run_id, w)) ⊎ (answer ≡ (err (run_already_active run_id), w))

  start_run-Settled-again :
      (token : ℕ) (run : IngestionRun) (w : RunWorld)
      → Settled w.now run w
      → Answers run.id w (start_run token key run w)
  start_run-Settled-again token run w (inl final) = inl (start_run-final token run w final)
  start_run-Settled-again token run w (inr (open_run, busy)) =
      elim (Option-cases (current_token w.now key w.locks)) [
        | inl free ↦ absurd cc
        | inr (held, h) ↦ inr (start_run-busy token run w held open_run h)
      ]

  selected-Leaves :
      (id token : ℕ) (w : RunWorld) (found : Option (Option IngestionRun)) (run_id seconds : ℕ)
      → found ≡ scalar_one_or_none (select_runs key w.runs)
      → seconds < lock_ttl_seconds
      → (selected id token key w found).0 ≡ ok run_id
      → (run : IngestionRun) × (run.id ≡ run_id)
        × Settled (w.now + seconds) run (selected id token key w found).1
        × ((selected id token key w found).1.monitors ≡ w.monitors)
        × ((selected id token key w found).1.sources ≡ w.sources)
        × (scalar_one_or_none (select_runs key (selected id token key w found).1.runs)
            ≡ some (some run))
  selected-Leaves id token w none run_id seconds e early returned = absurd cc
  selected-Leaves id token w (some (some run)) run_id seconds e early returned =
      let (a, b, c, d, f) = start_run-Leaves token run w run_id seconds early returned in
      (run, a, b, c, d, rw f (sym e))
  selected-Leaves id token w (some none) run_id seconds e early returned =
      let run = new_run id key in
      let added = record w { runs = run ∷ w.runs } in
      let (a, b, c, d, f) = start_run-Leaves token run added run_id seconds early returned in
      let unlisted = scalar_one_or_none-none (select_runs key w.runs) (sym e) in
      (run, a, b, c, d, rw f (rw (same_key_refl key) (rw unlisted refl)))

start-returned :
    (id token : ℕ) (key : RunKey) (w : RunWorld) (run_id : ℕ)
    → (start id token key w).0 ≡ ok run_id
    → (runnable (w.monitors key.monitor_id) ≡ true)
      × (any (enabled_for key.monitor_id) w.sources ≡ true)
      × (start id token key w
          ≡ selected id token key w (scalar_one_or_none (select_runs key w.runs)))
unfolding start
start-returned id token key w run_id returned = ground arith

-- A run is dispatched once: after a `start` that returned a run's identifier, a `start` for the same
-- monitor, date and mode, the next call and within the lock's time to live, whatever identifier and token it draws,
-- returns the same run or raises `RunAlreadyActive` with it, and dispatches and changes nothing.
pub start-once :
    (id token id' token' : ℕ) (key : RunKey) (w : RunWorld) (run_id seconds : ℕ)
    → (start id token key w).0 ≡ ok run_id
    → seconds < lock_ttl_seconds
    → let later = record ((start id token key w).1) { now = w.now + seconds } in
      (start id' token' key later ≡ (ok run_id, later))
      ⊎ (start id' token' key later ≡ (err (run_already_active run_id), later))
start-once id token id' token' key w run_id seconds returned early =
    let (r, s, e) = start-returned id token key w run_id returned in
    let found = scalar_one_or_none (select_runs key w.runs) in
    let (run, same, settled, monitors, sources, row) =
      selected-Leaves key id token w found run_id seconds refl early (rw (sym e) returned) in
    let left = (selected id token key w found).1 in
    let later = record left { now = w.now + seconds } in
    let reaches : Reaches key run later = (rw monitors r, rw sources s, row) in
    rw e (
      rw (start-Reaches key id' token' run later reaches, sym same)
        (start_run-Settled-again key token' run later settled))
