-- ===== src/Models/Jobs.antt =====
-- mlsc/db/models.py: the jobs that a person submits. Dates are numbers of days.
use mlsc.Base.{ℕ, Option}

pub data BackfillStatus : Type 0 where
  backfill_pending backfill_running backfill_complete backfill_failed : BackfillStatus

pub record BackfillJob : Type 0 where
  pub id : ℕ
  pub monitor_id : ℕ
  pub window_start : ℕ
  pub window_end : ℕ
  pub status : BackfillStatus

pub data OverrideKind : Type 0 where
  stage_rerun backfill_window retention_purge : OverrideKind

pub data OverrideStatus : Type 0 where
  override_pending override_running override_complete override_partial override_failed :
      OverrideStatus

-- The `parameters` of a job, by its kind.
pub data OverrideParameters : Type 0 where
  stage_parameter : (stage : ℕ) → OverrideParameters
  window_parameters : (window_start window_end : ℕ) → OverrideParameters
  no_parameters : OverrideParameters

pub record OverrideJob : Type 0 where
  pub id : ℕ
  pub monitor_id : ℕ
  pub kind : OverrideKind
  pub parameters : OverrideParameters
  pub status : OverrideStatus
  pub finished_at : Option ℕ
