-- ===== src/Health/Verdict.antt =====
-- When a source is found broken, degraded or healthy.
use mlsc.Base.{ℕ, ◌*◌, ◌≤◌, ◌<◌, ◌≡◌, ◌≢◌, ◌↔◌, Option, none, some, Bool, true, arith}
use mlsc.Models.{healthy, degraded, broken}
use mlsc.Health.{evaluate}

-- With five runs of history, a source that had rows before kept none in this run and the last.
abbrev pub IsEmptyStreak :
    (kept : ℕ) (previously_had_rows : Bool) (consecutive_empty history_count : ℕ) → Type 0
IsEmptyStreak kept previously_had_rows consecutive_empty history_count =
    (5 ≤ history_count) × (kept ≡ 0) × (previously_had_rows ≡ true) × (1 ≤ consecutive_empty)

-- The count is below half of a known median, which is counted in halves.
abbrev pub BelowHalf : (kept : ℕ) → Option ℕ → Type 0
BelowHalf kept none = ⊥
BelowHalf kept (some median) = 4 * kept < median

-- A source is broken exactly if five runs of history are there, it kept nothing, had rows before, and
-- the run before this one was empty too. It is degraded exactly if five runs are there, it is not
-- broken, and it kept less than half of a known median. It is healthy exactly in all other cases.
pub evaluate-meets :
    (kept : ℕ) (had_rows : Bool) (empty_runs : ℕ) (median : Option ℕ) (history_count : ℕ)
    → let verdict = evaluate kept had_rows empty_runs median history_count in
      ((verdict ≡ broken) ↔ IsEmptyStreak kept had_rows empty_runs history_count)
      × ((verdict ≡ degraded) ↔ ((5 ≤ history_count) × (verdict ≢ broken) × BelowHalf kept median))
      × ((verdict ≡ healthy) ↔ ((verdict ≢ broken) × (verdict ≢ degraded)))
unfolding evaluate
evaluate-meets kept had_rows empty_runs none history_count =
    (ground arith, ground arith, ground arith)
evaluate-meets kept had_rows empty_runs (some m) history_count =
    (ground arith, ground arith, ground arith)
