-- ===== src/Overrides.antt =====
-- mlsc/application/overrides.py: `OverrideService`, which records one repair job of a kind at a time for
-- a monitor, and mlsc/tasks/overrides.py: `run_override` with its backfill and purge branches, over
-- mlsc/tasks/retention.py. What the branch that runs an enrichment stage again comes to is an argument:
-- the enrichment is not modelled. A date is its ordinal, which is 1 for `date.min`.
pub mod Task
pub mod InFlight
pub mod Purges
pub mod Unfinished
mod Tests
use mlsc.Base.{
  ℕ, zero, suc, ◌+◌, ◌-◌, ◌*◌, ◌≤◌, ◌<◌, ◌≡◌, ◌∙◌, ◌≢◌, ◌↔◌, ◌⊎◌, refl, sym, ap, subst, fun_ext,
  Option, none, some, is_some, Bool, true, false, not, ◌&&◌, ◌||◌, List, [], ◌∷◌, ◌++◌, map, ◌==◌,
  ==_iff, ==_refl, ltb, leb, if◌then◌else◌, arith, Result, ok, err, All, Has, inl, inr, found_cases,
  Bool-cases, Option-cases, List-cases, filter, any, all, sum_by, length, take, get_elem?, contains,
  Store, update, update-same, length-append, length-map, length-take-le, length-filter-le,
  filter-same, filter-filter, All-append, any-Has, any-All, ltb→lt, lt→ltb, leb→le, le→leb, ◌>>=◌,
  >>=-eq-ok,
}
use mlsc.Models.{Document}
use mlsc.Models.Jobs.{
  OverrideKind, stage_rerun, backfill_window, retention_purge, OverrideStatus, override_pending,
  override_running, override_complete, override_partial, override_failed, OverrideParameters,
  stage_parameter, window_parameters, no_parameters, OverrideJob,
}
use mlsc.Runs.{scalar_one_or_none, SourceOutcome, is_collected, is_failed}
use mlsc.Backfill
use mlsc.Backfill.{BackfillWorld, BackfillError}

-- The document's text of a token's parts is hashed by `sha256`; `midnight` is the moment at which a day
-- begins, to which the database casts a date.
pub record Tools : Type 0 where
  pub sha256 : (monitor_id cutoff count : ℕ) → ℕ
  pub midnight : ℕ → ℕ

pub record OverrideRequest : Type 0 where
  pub kind : OverrideKind
  pub stage : Option ℕ
  pub window_start : Option ℕ
  pub window_end : Option ℕ
  pub purge_token : Option ℕ

pub record OverrideWorld : Type 0 where
  -- the retention in days of each monitor that is there
  pub retention_days : Store ℕ
  pub documents : List Document
  pub jobs : List OverrideJob
  pub backfill : BackfillWorld
  -- the jobs handed to the dispatcher, the latest first
  pub dispatched : List ℕ

pub data OverrideError : Type 0 where
  override_overlaps : (job_id : ℕ) → OverrideError
  purge_not_confirmed monitor_missing overflow_error assertion_error multiple_results :
      OverrideError

abbrev pub same_kind : OverrideKind → OverrideKind → Bool
same_kind stage_rerun stage_rerun = true
same_kind backfill_window backfill_window = true
same_kind retention_purge retention_purge = true
same_kind _ _ = false

-- `_IN_FLIGHT`
abbrev pub is_in_flight : OverrideStatus → Bool
is_in_flight override_pending = true
is_in_flight override_running = true
is_in_flight _ = false

-- The documents past a monitor's retention.
abbrev pub is_expired : Tools → (monitor_id cutoff : ℕ) → Document → Bool
is_expired t monitor_id cutoff d =
    (d.monitor_id == monitor_id) && ltb d.published_at (t.midnight cutoff)

-- `today - timedelta(days=days)`: nothing is returned where the date is before `date.min` and Python
-- raises `OverflowError`.
unfoldable pub cutoff_of : (today days : ℕ) → Option ℕ
cutoff_of today days = if ltb days today then some (today - days) else none

-- `_retention_state`
abbrev pub counted :
    Tools → (monitor_id : ℕ) → OverrideWorld → Option ℕ → Result OverrideError (ℕ × ℕ)
counted t monitor_id w none = err overflow_error
counted t monitor_id w (some cutoff) =
    ok (cutoff, length (filter (is_expired t monitor_id cutoff) w.documents))

unfoldable pub retention_state :
    Tools → (monitor_id today : ℕ) → OverrideWorld → Result OverrideError (ℕ × ℕ)
retention_state t monitor_id today w = elim (w.retention_days monitor_id) [
  | none ↦ err monitor_missing
  | some days ↦ counted t monitor_id w (cutoff_of today days)
]

-- `preview_retention`: the count and its token.
abbrev pub previewed : Tools → (monitor_id : ℕ) → ℕ × ℕ → Result OverrideError (ℕ × ℕ)
previewed t monitor_id (cutoff, count) = ok (count, t.sha256 monitor_id cutoff count)

unfoldable pub preview_retention :
    Tools → (monitor_id today : ℕ) → OverrideWorld → Result OverrideError (ℕ × ℕ)
preview_retention t monitor_id today w =
    retention_state t monitor_id today w >>= previewed t monitor_id

-- `_check_purge_confirmed`
abbrev pub compared : Tools → (monitor_id token : ℕ) → ℕ × ℕ → Result OverrideError (Unit {0})
compared t monitor_id token (cutoff, count) =
    if token == t.sha256 monitor_id cutoff count then ok tt else err purge_not_confirmed

unfoldable pub check_purge_confirmed :
    Tools
    → (monitor_id today : ℕ) → (token : Option ℕ) → OverrideWorld
    → Result OverrideError (Unit {0})
check_purge_confirmed t monitor_id today none w = err purge_not_confirmed
check_purge_confirmed t monitor_id today (some token) w =
    retention_state t monitor_id today w >>= compared t monitor_id token

-- `_parameters_for`: nothing is returned where an assertion fails.
abbrev pub window_of : Option ℕ → Option ℕ → Option OverrideParameters
window_of (some first) (some final) = some (window_parameters first final)
window_of _ _ = none

abbrev pub stage_of : Option ℕ → Option OverrideParameters
stage_of none = none
stage_of (some stage) = some (stage_parameter stage)

abbrev pub parameters_for : OverrideKind → OverrideRequest → Option OverrideParameters
parameters_for stage_rerun r = stage_of r.stage
parameters_for backfill_window r = window_of r.window_start r.window_end
parameters_for retention_purge r = some no_parameters

abbrev pub new_override : (id monitor_id : ℕ) → OverrideKind → OverrideParameters → OverrideJob
new_override id monitor_id kind parameters = record {
  id = id;
  monitor_id = monitor_id;
  kind = kind;
  parameters = parameters;
  status = override_pending;
  finished_at = none;
}

abbrev pub added :
    (id monitor_id : ℕ)
    → OverrideKind
    → OverrideWorld
    → Option OverrideParameters
    → Result OverrideError ℕ × OverrideWorld
added id monitor_id kind w none = (err assertion_error, w)
added id monitor_id kind w (some of_kind) = (
  ok id,
  record w {
    jobs = new_override id monitor_id kind of_kind ∷ w.jobs;
    dispatched = id ∷ w.dispatched;
  },
)

-- `submit`, given what the query for a job in flight returned.
abbrev pub selected :
    (id monitor_id : ℕ)
    → OverrideRequest
    → OverrideWorld
    → Option (Option OverrideJob)
    → Result OverrideError ℕ × OverrideWorld
selected id monitor_id r w none = (err multiple_results, w)
selected id monitor_id r w (some (some job)) = (err (override_overlaps job.id), w)
selected id monitor_id r w (some none) = added id monitor_id r.kind w (parameters_for r.kind r)

-- The condition of that query.
abbrev pub competes : (monitor_id : ℕ) → OverrideKind → OverrideJob → Bool
competes monitor_id kind job =
    (job.monitor_id == monitor_id) && (same_kind job.kind kind && is_in_flight job.status)

abbrev pub checked :
    (id monitor_id : ℕ)
    → OverrideRequest
    → OverrideWorld
    → Result OverrideError (Unit {0})
    → Result OverrideError ℕ × OverrideWorld
checked id monitor_id r w (err e) = (err e, w)
checked id monitor_id r w (ok fine) =
    selected id monitor_id r w (scalar_one_or_none (filter (competes monitor_id r.kind) w.jobs))

-- `OverrideService.submit`
unfoldable pub submit :
    Tools
    → (id monitor_id today : ℕ) → OverrideRequest
    → OverrideWorld
    → Result OverrideError ℕ × OverrideWorld
submit t id monitor_id today r w = checked id monitor_id r w (
    if same_kind r.kind retention_purge
    then check_purge_confirmed t monitor_id today r.purge_token w
    else ok tt)
