-- ===== src/Backfill/Tests.antt =====
-- A backfill of three dates.
use mlsc.Base.{ℕ, ◌+◌, ◌≡◌, refl, none, Bool, true, false, ◌&&◌, [], ◌∷◌, ◌==◌, ltb, leb, arith}
use mlsc.Models.{MonitorSource, play}
use mlsc.Models.Jobs.{BackfillJob, backfill_complete}
use mlsc.Backfill.{BackfillWorld, submit, collect_date, run_dates, run, new_backfill, backfill_run}
use mlsc.Backfill.Windows.{Disjoint, submit-Disjoint}
use mlsc.Backfill.Ends.{Collected, run-Collected}

abbrev source : MonitorSource
source = record {
  id = 4;
  monitor_id = 1;
  source_name = play;
  instance_key = 30;
  config = 0;
  daily_quota = 2;
  enabled = true;
  last_external_id = none;
  last_published_at = none;
}

abbrev job : BackfillJob
job = new_backfill 9 1 20 22

-- A run of the day after the window.
abbrev world : BackfillWorld
world = record {
  jobs = job ∷ record (new_backfill 8 1 10 30) { status = backfill_complete } ∷ [];
  runs = backfill_run 60 1 23 ∷ [];
  sources = source ∷ [];
}

-- Counts the calls; the second of them raises.
abbrev collect_one_date : ℕ → ℕ → ℕ → Bool × ℕ
collect_one_date run_id source_id calls = (calls == 1, calls + 1)

three_calls : (run collect_one_date (λ date. date + 100) 9 world 0).2 ≡ 3
unfolding run run_dates collect_date
three_calls = refl

nothing_taken : (date : ℕ) → ltb date 23 ≡ true → (23 == date) ≡ false
nothing_taken date before = ground arith

free_window : (date : ℕ) → (leb 20 date && ltb date (20 + 3)) ≡ true → ltb date 23 ≡ true
free_window date inside = ground arith

run-Collected_example :
    Collected 9 job world refl 3 (run collect_one_date (λ date. date + 100) 9 world 0)
run-Collected_example =
    run-Collected collect_one_date (λ date. date + 100) 9 job world 0 refl
      (λ date inside. rw (nothing_taken date (free_window date inside)) refl)

refused : Disjoint (submit 11 1 22 24 40 world).1.jobs
refused = submit-Disjoint 11 1 22 24 40 world ((refl, tt), (tt, tt))
