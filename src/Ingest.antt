-- ===== src/Ingest.antt =====
-- mlsc/tasks/ingest.py: `collect_source`, which collects one source for one run. The adapters, the
-- plan that holds them (mlsc/sources/collect.py) and SHA-256 are parameters; the database is the
-- state. The time that the collection took and the new rows' identifiers are arguments.
pub mod Plan
pub mod Loop
pub mod Rows
pub mod Ledger
pub mod Rerun
pub mod Quota
pub mod Cursors
mod Tests
use mlsc.Base.{
  ℕ, ◌-◌, Option, none, some, Bool, true, false, ◌||◌, List, [], ◌∷◌, ◌++◌, map, ◌==◌, Result, ok,
  err, if◌then◌else◌, ltb, length, any, ◌&&◌,
}
use mlsc.Models.{
  MonitorSource, QuotaOutcome, within_allowance, allowance_reached, kind_collected, FetchStats,
  Document,
}
use Plan.{
  Cursor, Page, AdapterFailure, malformed_feed, fetch_failed, Fetched, page, adapter_failed, raised,
  Adapter, SourcePlan, ConfigFailure, PlanFor,
}
use Rows.{UniqueViolation, Hashing, document_rows, insert_ignoring_duplicates}
use Loop.{FanOut, fan_out_start, fan_out}
use mlsc.Fetch.Contracts.{FetchStatus, validation_failed}

pub record IngestWorld : Type 0 where
  pub sources : List MonitorSource
  pub documents : List Document
  pub stats : List FetchStats

-- What `collect_source` raises: the source is missing, it is disabled, the run has a row for it
-- already (the table's unique constraint), or something that it does not catch was raised.
pub data CollectError : Type 0 where
  source_not_found source_disabled stats_conflict uncaught : CollectError

-- A text or none, in a condition.
abbrev pub truthy : Option (List ℕ) → Bool
truthy (some (c ∷ s)) = true
truthy _ = false

unfoldable pub find_source : ℕ → List MonitorSource → Option MonitorSource
find_source id [] = none
find_source id (s ∷ rest) = let later = find_source id rest in if s.id == id then some s else later

abbrev pub or_else : Option ℕ → Option ℕ → Option ℕ
or_else none before = before
or_else (some x) before = some x

-- `MonitorSourceRepository.save_cursor`: an omitted field is left as it stands.
abbrev pub with_cursor : Cursor → MonitorSource → MonitorSource
with_cursor cursor s = record s {
  last_external_id = or_else cursor.last_external_id s.last_external_id;
  last_published_at = or_else cursor.last_published_at s.last_published_at;
}

unfoldable pub save_cursor : ℕ → Cursor → List MonitorSource → List MonitorSource
save_cursor id cursor sources = map (λ s. if s.id == id then with_cursor cursor s else s) sources

-- `if rows and new_cursor is not None`
abbrev pub advanced :
    List Document → (source_id : ℕ) → Option Cursor → List MonitorSource → List MonitorSource
advanced (_ ∷ _) source_id (some cursor) sources = save_cursor source_id cursor sources
advanced _ source_id _ sources = sources

abbrev pub persisted :
    List Document
    → (source_id : ℕ) → Option Cursor
    → IngestWorld
    → Result UniqueViolation (ℕ × List Document)
    → Result UniqueViolation (ℕ × IngestWorld)
persisted rows source_id new_cursor w (err e) = err e
persisted rows source_id new_cursor w (ok (kept, documents)) = ok (
  kept,
  record w { documents = documents; sources = advanced rows source_id new_cursor w.sources },
)

-- `_persist_documents`, where the database does not fail: where the transaction fails it changes nothing.
unfoldable pub persist_documents :
    List Document
    → (source_id : ℕ) → Option Cursor
    → IngestWorld
    → Result UniqueViolation (ℕ × IngestWorld)
persist_documents rows source_id new_cursor w =
    persisted rows source_id new_cursor w (insert_ignoring_duplicates rows w.documents)

abbrev pub same_row : (run_id source_id : ℕ) → FetchStats → Bool
same_row run_id source_id s = (s.run_id == run_id) && (s.monitor_source_id == source_id)

-- `_write_stats`. Its insert leaves the column `outcome_kind` at the model's default.
unfoldable pub write_stats : FetchStats → IngestWorld → Result CollectError FetchStats × IngestWorld
write_stats stats w =
    if any (same_row stats.run_id stats.monitor_source_id) w.stats
    then (err stats_conflict, w)
    else (ok stats, record w { stats = stats ∷ w.stats })

-- `_NO_LIBRARY_REACHED`
abbrev pub no_library_reached : ℕ
no_library_reached = 0

-- f"document write failed: {failure}"
abbrev pub write_failed_text : List ℕ → List ℕ
write_failed_text text =
    100 ∷ 111 ∷ 99 ∷ 117 ∷ 109 ∷ 101 ∷ 110 ∷ 116 ∷ 32 ∷ 119 ∷ 114 ∷ 105 ∷ 116 ∷ 101 ∷ 32 ∷ 102 ∷ 97
    ∷ 105 ∷ 108 ∷ 101 ∷ 100 ∷ 58 ∷ 32 ∷ text

abbrev pub quota_outcome_of : Bool → QuotaOutcome
quota_outcome_of true = allowance_reached
quota_outcome_of false = within_allowance

-- The arguments of a call, and what the code outside this module does in it.
pub record Collection : Type 0 where
  pub plan_for : PlanFor
  pub hashing : Hashing
  pub run_id : ℕ
  pub stats_id : ℕ
  pub duration_seconds : ℕ
  -- the text of the error by which the database rejects the documents, if it does
  pub write_error : Option (List ℕ)
  -- the text of the error for a row that the natural key forbids
  pub violation_text : List ℕ

module _ (c : Collection) (source : MonitorSource) where
  -- The row of a source whose plan could not be built.
  abbrev pub unplanned_stats : ConfigFailure → FetchStats
  unplanned_stats failure = record {
    id = c.stats_id;
    run_id = c.run_id;
    monitor_source_id = source.id;
    attempted = 0;
    fetched = 0;
    duplicates = 0;
    kept = 0;
    quota = source.daily_quota;
    quota_outcome = within_allowance;
    validation_failed = failure.validation_failed;
    outcome_kind = kind_collected;
    library_version = no_library_reached;
    duration_seconds = c.duration_seconds;
    error = some failure.text;
  }

  abbrev pub collected_stats :
      SourcePlan
      → FanOut
      → (attempted duplicates kept : ℕ) → (invalid : Bool) → (error : Option (List ℕ)) → FetchStats
  collected_stats plan f attempted duplicates kept invalid error = record {
    id = c.stats_id;
    run_id = c.run_id;
    monitor_source_id = source.id;
    attempted = attempted;
    fetched = attempted;
    duplicates = duplicates;
    kept = kept;
    quota = source.daily_quota;
    quota_outcome = quota_outcome_of f.allowance_reached;
    validation_failed = invalid;
    outcome_kind = kind_collected;
    library_version = plan.library_version;
    duration_seconds = c.duration_seconds;
    error = error;
  }

  -- `None if error else new_cursor`
  abbrev pub cursor_to_save : FanOut → Option Cursor
  cursor_to_save f = if truthy f.error then none else f.new_cursor

  -- The handler of `SQLAlchemyError`, and the row after it.
  abbrev pub unwritten_stats : SourcePlan → FanOut → List Document → (text : List ℕ) → FetchStats
  unwritten_stats plan f rows text =
      collected_stats plan f (length rows) 0 0 false (some (write_failed_text text))

  -- The row after the documents were persisted, or were not.
  abbrev pub written :
      SourcePlan
      → FanOut
      → List Document
      → IngestWorld
      → Result UniqueViolation (ℕ × IngestWorld)
      → Result CollectError FetchStats × IngestWorld
  written plan f rows w (err e) = write_stats (unwritten_stats plan f rows c.violation_text) w
  written plan f rows w (ok (kept, w')) =
      write_stats
        (collected_stats plan f (length rows) (length rows - kept) kept f.validation_failed f.error)
        w'

  abbrev pub recorded :
      SourcePlan
      → FanOut
      → List Document
      → IngestWorld
      → (write_error : Option (List ℕ)) → Result CollectError FetchStats × IngestWorld
  recorded plan f rows w (some text) = write_stats (unwritten_stats plan f rows text) w
  recorded plan f rows w none =
      written plan f rows w (persist_documents rows source.id (cursor_to_save f) w)

  abbrev pub with_rows :
      SourcePlan
      → FanOut
      → IngestWorld
      → Option (List Document)
      → Result CollectError FetchStats × IngestWorld
  with_rows plan f w none = (err uncaught, w)
  with_rows plan f w (some rows) = recorded plan f rows w c.write_error

  abbrev pub fanned_out :
      SourcePlan → IngestWorld → Option FanOut → Result CollectError FetchStats × IngestWorld
  fanned_out plan w none = (err uncaught, w)
  fanned_out plan w (some f) = with_rows plan f w (document_rows c.hashing 0 source f.items)

  abbrev pub planned :
      IngestWorld → Result ConfigFailure SourcePlan → Result CollectError FetchStats × IngestWorld
  planned w (err failure) = write_stats (unplanned_stats failure) w
  planned w (ok plan) =
      fanned_out plan w (fan_out plan.cursor plan.adapters (fan_out_start source.daily_quota))

-- `collect_source`
abbrev pub loaded :
    Collection → IngestWorld → Option MonitorSource → Result CollectError FetchStats × IngestWorld
loaded c w none = (err source_not_found, w)
loaded c w (some source) =
    if source.enabled then planned c source w (c.plan_for source) else (err source_disabled, w)

unfoldable pub collect_source :
    Collection → (source_id : ℕ) → IngestWorld → Result CollectError FetchStats × IngestWorld
collect_source c source_id w = loaded c w (find_source source_id w.sources)
