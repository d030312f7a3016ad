-- ===== src/Models.antt =====
-- mlsc/db/models.py: the rows that collection reads and writes, and in modules of their own those of the other parts. Identifiers, dates and texts that the
-- code only compares, hashes or passes on are numbers; a time is a whole number of ticks. A table is
-- the list of its rows, or a store by identifier.
pub mod Topics
pub mod Alerts
pub mod Jobs
pub mod Monitors
use mlsc.Base.{ℕ, Bool, Option, List, Store}

pub data SourceName : Type 0 where
  play appstore discourse news rss hackernews : SourceName

pub record MonitorSource : Type 0 where
  pub id : ℕ
  pub monitor_id : ℕ
  pub source_name : SourceName
  pub instance_key : ℕ
  pub config : ℕ
  pub daily_quota : ℕ
  pub enabled : Bool
  pub last_external_id : Option ℕ
  pub last_published_at : Option ℕ

pub data RunStatus : Type 0 where
  pending running partial complete failed : RunStatus

-- The states of a run's stages: mlsc/application/runs.py.
pub data StageState : Type 0 where
  stage_pending stage_running stage_complete stage_failed : StageState

pub record IngestionRun : Type 0 where
  pub id : ℕ
  pub monitor_id : ℕ
  pub run_date : ℕ
  pub is_backfill : Bool
  pub status : RunStatus
  -- by stage
  pub stage_status : Store StageState
  pub finished_at : Option ℕ

pub data QuotaOutcome : Type 0 where
  within_allowance allowance_reached : QuotaOutcome

pub data FetchOutcomeKind : Type 0 where
  kind_collected kind_failed kind_skipped_disabled : FetchOutcomeKind

pub record FetchStats : Type 0 where
  pub id : ℕ
  pub run_id : ℕ
  pub monitor_source_id : ℕ
  pub attempted : ℕ
  pub fetched : ℕ
  pub duplicates : ℕ
  pub kept : ℕ
  pub quota : ℕ
  pub quota_outcome : QuotaOutcome
  pub validation_failed : Bool
  pub outcome_kind : FetchOutcomeKind
  pub library_version : ℕ
  pub duration_seconds : ℕ
  -- the error's text, as its character codes
  pub error : Option (List ℕ)

pub record Document : Type 0 where
  pub id : ℕ
  pub monitor_id : ℕ
  pub source_name : SourceName
  pub external_id : ℕ
  pub entity_id : ℕ
  pub url : Option ℕ
  pub author_hash : ℕ
  pub body : Option (List ℕ)
  pub published_at : ℕ
  pub rating : Option ℕ
  pub app_version : Option ℕ
  pub engagement : Option ℕ
  pub content_hash : ℕ

pub data SourceState : Type 0 where
  healthy degraded broken disabled : SourceState

pub data AlertKind : Type 0 where
  empty_streak volume_collapse smoke_failed library_stale : AlertKind

-- A median is counted in halves.
pub record SourceHealth : Type 0 where
  pub monitor_source_id : ℕ
  pub last_success_at : Option ℕ
  pub consecutive_empty : ℕ
  pub consecutive_fail : ℕ
  pub rows_median_28d : Option ℕ
  pub library_version : Option ℕ
  pub state : SourceState

pub record ScraperAlert : Type 0 where
  pub monitor_id : ℕ
  pub monitor_source_id : ℕ
  pub kind : AlertKind
  pub observed : ℕ
  pub expected : Option ℕ
