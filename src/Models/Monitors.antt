-- ===== src/Models/Monitors.antt =====
-- mlsc/db/models.py: monitors, their schedule registrations and the seeds of themes. The identifier of
-- a registration is not read. Cron expressions and timezones are numbers.
use Prim.Native.String.{String}
use mlsc.Base.{ℕ}
use mlsc.Fetch.Json.{Json, Items, Fields}

pub data TargetType : Type 0 where
  product theme : TargetType

pub data MonitorStatus : Type 0 where
  active paused archived : MonitorStatus

pub record Monitor : Type 0 where
  pub id : ℕ
  pub name : String
  pub target_type : TargetType
  pub seed : Fields
  pub schedule : ℕ
  pub timezone : ℕ
  pub status : MonitorStatus
  pub retention_days : ℕ

pub record ScheduleRegistration : Type 0 where
  pub monitor_id : ℕ
  pub cron_expression : ℕ
  pub timezone : ℕ

pub record ThemeSeed : Type 0 where
  pub id : ℕ
  pub monitor_id : ℕ
  pub description : Json
  pub queries : Items
  pub provenance : Fields
