-- ===== src/Health.antt =====
-- mlsc/application/health.py, mlsc/repositories/health.py and `evaluate_source_health` of
-- mlsc/tasks/maintenance.py: the verdict on each source after a run. A median is counted in halves.
pub mod Verdict
pub mod Assessment
pub mod Scope
mod Tests
use mlsc.Base.{
  ℕ, suc, ◌+◌, ◌-◌, ◌*◌, ◌/◌, ◌%◌, Option, none, some, Bool, true, false, ◌&&◌, List, [], ◌∷◌, map,
  ◌==◌, if◌then◌else◌, Store, update, filter, ltb, leb, length, take, get_elem?,
}
use mlsc.Models.{
  MonitorSource, FetchStats, SourceState, healthy, degraded, broken, AlertKind, empty_streak,
  volume_collapse, SourceHealth, ScraperAlert,
}
use mlsc.Ingest.{truthy, find_source}

-- `_EMPTY_STREAK_THRESHOLD` and `_MIN_HISTORY_FOR_MEDIAN`
abbrev pub empty_streak_threshold : ℕ
empty_streak_threshold = 2

abbrev pub min_history_for_median : ℕ
min_history_for_median = 5

-- `evaluate`, the state of its verdict: `_VOLUME_COLLAPSE_RATIO` is a half, so a count collapsed if
-- four times it is below the median in halves.
unfoldable pub evaluate :
    (kept : ℕ) (previously_had_rows : Bool) (consecutive_empty : ℕ) (rows_median_28d : Option ℕ)
    (history_count : ℕ)
    → SourceState
evaluate kept previously_had_rows consecutive_empty rows_median_28d history_count =
    if ltb history_count min_history_for_median
    then healthy
    else if (kept == 0)
        && (previously_had_rows && leb empty_streak_threshold (consecutive_empty + 1))
    then broken
    else if collapsed rows_median_28d
    then degraded
    else healthy
  where
    collapsed : Option ℕ → Bool
    collapsed none = false
    collapsed (some median) = ltb 0 median && ltb (4 * kept) median

-- `sorted`
abbrev pub insert_sorted : ℕ → List ℕ → List ℕ
insert_sorted x [] = x ∷ []
insert_sorted x (y ∷ rest) =
    let later = insert_sorted x rest in if leb x y then x ∷ y ∷ rest else y ∷ later

abbrev pub sorted : List ℕ → List ℕ
sorted [] = []
sorted (x ∷ rest) = insert_sorted x (sorted rest)

abbrev pub element : Option ℕ → ℕ
element none = 0
element (some x) = x

-- `statistics.median` of a list that is not empty, in halves.
unfoldable pub median : List ℕ → ℕ
median xs =
    let n = length xs in
    let upper = element (get_elem? (sorted xs) (n / 2)) in
    let lower = element (get_elem? (sorted xs) (n / 2 - 1)) in
    if n % 2 == 0 then lower + upper else 2 * upper

-- `ORDER BY id DESC`
abbrev pub insert_by_id : FetchStats → List FetchStats → List FetchStats
insert_by_id x [] = x ∷ []
insert_by_id x (y ∷ rest) =
    let later = insert_by_id x rest in if leb y.id x.id then x ∷ y ∷ rest else y ∷ later

abbrev pub by_id_desc : List FetchStats → List FetchStats
by_id_desc [] = []
by_id_desc (x ∷ rest) = insert_by_id x (by_id_desc rest)

-- The query for a source's history.
unfoldable pub history_of : (monitor_source_id : ℕ) → List FetchStats → List ℕ
history_of monitor_source_id stats =
    map (λ s. s.kept)
      (take 28 (by_id_desc (filter (λ s. s.monitor_source_id == monitor_source_id) stats)))

-- `HealthRepository.load`: a source that was never seen starts healthy.
abbrev pub loaded : (monitor_source_id : ℕ) → Option SourceHealth → SourceHealth
loaded id (some health) = health
loaded id none = record {
  monitor_source_id = id;
  last_success_at = none;
  consecutive_empty = 0;
  consecutive_fail = 0;
  rows_median_28d = none;
  library_version = none;
  state = healthy;
}

abbrev pub load : (monitor_source_id : ℕ) → Store SourceHealth → SourceHealth
load id rows = loaded id (rows id)

abbrev pub is_seen : Option ℕ → Bool
is_seen none = false
is_seen (some _) = true

-- The row that `save` leaves, from the loaded one, the run's statistics and the history.
unfoldable pub assessed : (now : ℕ) → List ℕ → FetchStats → SourceHealth → SourceHealth
assessed now history stats health = record {
  monitor_source_id = health.monitor_source_id;
  last_success_at = if ltb 0 stats.kept then some now else health.last_success_at;
  consecutive_empty = if ltb 0 stats.kept then 0 else health.consecutive_empty + 1;
  consecutive_fail = if truthy stats.error then health.consecutive_fail + 1 else 0;
  rows_median_28d =
      if leb min_history_for_median (length history) then some (median history) else none;
  library_version = some stats.library_version;
  state =
      evaluate stats.kept (is_seen health.last_success_at) health.consecutive_empty
        health.rows_median_28d (length history);
}

abbrev pub kind_of : SourceState → Option AlertKind
kind_of broken = some empty_streak
kind_of degraded = some volume_collapse
kind_of _ = none

pub record HealthWorld : Type 0 where
  pub sources : List MonitorSource
  pub stats : List FetchStats
  pub health : Store SourceHealth
  pub alerts : List ScraperAlert
  pub now : ℕ

-- `raise_alert`. Its `expected` is read from the row after `save`.
abbrev pub alert_for : MonitorSource → AlertKind → FetchStats → SourceHealth → ScraperAlert
alert_for source kind stats saved = record {
  monitor_id = source.monitor_id;
  monitor_source_id = stats.monitor_source_id;
  kind = kind;
  observed = stats.kept;
  expected = saved.rows_median_28d;
}

-- The alert, if the verdict calls for one. Nothing is returned where its source is missing: the code
-- raises there.
abbrev pub alerted :
    FetchStats
    → SourceHealth
    → HealthWorld
    → Option AlertKind
    → Option MonitorSource
    → Option HealthWorld
alerted stats saved w none source = some w
alerted stats saved w (some kind) none = none
alerted stats saved w (some kind) (some source) =
    some (record w { alerts = alert_for source kind stats saved ∷ w.alerts })

-- One round of the loop.
unfoldable pub assess : FetchStats → HealthWorld → Option HealthWorld
assess stats w =
    let history = history_of stats.monitor_source_id w.stats in
    let saved = assessed w.now history stats (load stats.monitor_source_id w.health) in
    alerted stats saved (record w { health = update w.health stats.monitor_source_id (some saved) })
      (kind_of saved.state) (find_source stats.monitor_source_id w.sources)

unfoldable pub assess_all : List FetchStats → HealthWorld → Option HealthWorld
assess_all [] w = some w
assess_all (stats ∷ rest) w = elim (assess stats w) [ none ↦ none | some w' ↦ assess_all rest w' ]

-- `evaluate_source_health`
unfoldable pub evaluate_source_health : (run_id : ℕ) → HealthWorld → Option HealthWorld
evaluate_source_health run_id w = assess_all (filter (λ s. s.run_id == run_id) w.stats) w
