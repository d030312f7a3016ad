-- ===== src/Health/Assessment.antt =====
-- Streaks over a source's runs, and the alerts that they raise.
use mlsc.Base.{
  update, ℕ, ◌≤◌, ◌≡◌, ◌↔◌, ◌⊎◌, Option, none, some, true, arith, All, List, [], ◌∷◌, ◌++◌, length,
}
use mlsc.Models.{FetchStats, SourceHealth, ScraperAlert, AlertKind, healthy, broken}
use mlsc.Ingest.{find_source}
use mlsc.Health.{median, history_of, load, is_seen, assessed, kind_of, HealthWorld}
use mlsc.Health.Verdict.{evaluate-meets}

-- A run of a source: when it was assessed, the history then, and its statistics.
pub record Run : Type 0 where
  pub now : ℕ
  pub history : List ℕ
  pub stats : FetchStats

-- The health after the runs, the latest first.
abbrev pub after_runs : List Run → SourceHealth → SourceHealth
after_runs [] health = health
after_runs (r ∷ earlier) health = assessed r.now r.history r.stats (after_runs earlier health)

abbrev pub IsEmpty : Run → Type 0
IsEmpty r = r.stats.kept ≡ 0

after_runs-streak :
    (empty_runs earlier : List Run) (full : Run) (health : SourceHealth)
    → All IsEmpty empty_runs
    → 1 ≤ full.stats.kept
    → let left = after_runs (empty_runs ++ full ∷ earlier) health in
      (left.consecutive_empty ≡ length empty_runs) × (is_seen left.last_success_at ≡ true)
unfolding assessed
after_runs-streak [] earlier full health all_empty rows = (ground arith, ground arith)
after_runs-streak (r ∷ rest) earlier full health all_empty rows =
    let (count, seen) = after_runs-streak rest earlier full health all_empty.1 rows in
    (ground arith, ground arith)

-- After a run that kept rows and any number of empty runs, a further empty run with five runs of
-- history finds the source broken exactly if it is not the first empty one.
pub after_runs-broken :
    (last full : Run) (empty_runs earlier : List Run) (health : SourceHealth)
    → IsEmpty last
    → 5 ≤ length last.history
    → All IsEmpty empty_runs
    → 1 ≤ full.stats.kept
    → ((after_runs (last ∷ empty_runs ++ full ∷ earlier) health).state ≡ broken)
      ↔ (1 ≤ length empty_runs)
unfolding assessed
after_runs-broken last full empty_runs earlier health is_empty enough all_empty rows =
    let before = after_runs (empty_runs ++ full ∷ earlier) health in
    let (count, seen) = after_runs-streak empty_runs earlier full health all_empty rows in
    let (meets, _, _) =
      evaluate-meets last.stats.kept (is_seen before.last_success_at) before.consecutive_empty
        before.rows_median_28d (length last.history) in
    (
      λ e. let (_, _, _, twice) = meets.0 e in omega (arith, count),
      λ e. meets.1 (enough, is_empty, seen, omega (arith, count)),
    )

-- What `assess` does with the alerts: none is raised for a healthy source, and one otherwise.
abbrev pub AlertedFor : SourceHealth → HealthWorld → FetchStats → HealthWorld → Type 0
AlertedFor left w stats w' =
    ((left.state ≡ healthy) × (w'.alerts ≡ w.alerts))
    ⊎ ((alert : ScraperAlert) × (w'.alerts ≡ alert ∷ w.alerts)
        × (kind_of left.state ≡ some alert.kind)
        × (alert.observed ≡ stats.kept)
        × (alert.expected ≡ some (median (history_of stats.monitor_source_id w.stats))))

abbrev pub Alerted : HealthWorld → FetchStats → Option HealthWorld → Type 0
Alerted w stats none = find_source stats.monitor_source_id w.sources ≡ none
Alerted w stats (some w') = AlertedFor (load stats.monitor_source_id w'.health) w stats w'

-- A verdict that raises no alert is healthy, and one that does knows a median.
abbrev Judged : List ℕ → SourceHealth → Option AlertKind → Type 0
Judged history saved none = saved.state ≡ healthy
Judged history saved (some kind) = saved.rows_median_28d ≡ some (median history)

abbrev saved_in : HealthWorld → FetchStats → SourceHealth → HealthWorld
saved_in w stats saved = record w { health = update w.health stats.monitor_source_id (some saved) }
