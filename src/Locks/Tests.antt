-- ===== src/Locks/Tests.antt =====
-- The lock at work.
use mlsc.Base.{◌≡◌, refl, inl, inr, none, some, false, List, [], ◌∷◌, arith}
use mlsc.Locks.{RunKey, acquire, current_token}
use mlsc.Locks.Exclusion.{Action, acquired, released, passed, Shared, act_all, acquire-excludes}

abbrev key : RunKey
key = record { monitor_id = 1; run_date = 20; is_backfill = false }

abbrev other_key : RunKey
other_key = record { monitor_id = 2; run_date = 20; is_backfill = false }

abbrev shared : Shared
shared = record { locks = λ _. none; now = 100 }

-- Another worker tries the key and fails, takes another key, and tries to release this one.
abbrev meanwhile : List Action
meanwhile =
    acquired key 8 900
    ∷ passed 300
    ∷ acquired other_key 9 900
    ∷ released other_key 9
    ∷ released key 8
    ∷ []

acquire-excludes_example :
    let (taken, locks) = acquire 7 900 100 key shared.locks in
    let later = act_all meanwhile (record shared { locks = locks }) in
    (taken ≡ some 7)
    × (current_token later.now key later.locks ≡ some 7)
    × (acquire 11 900 later.now key later.locks ≡ (none, later.locks))
unfolding current_token
acquire-excludes_example =
    acquire-excludes key 7 900 shared meanwhile 11 900 refl (omega arith)
      (tt, (tt, (tt, (inl refl, (inr (λ e. omega arith), tt)))))
