-- ===== src/Monitors/Beat.antt =====
-- mlsc/beat.py: the schedule that `SchedulePlanner.project` derives from the registrations.
use mlsc.Base.{
  false, ℕ, Option, none, some, Bool, List, [], ◌∷◌, filter, if◌then◌else◌, Result, ok, err, Store,
  update,
}
use mlsc.Models.Monitors.{Monitor, ScheduleRegistration}
use mlsc.Monitors.Requests.{Tools}
use mlsc.Monitors.{MonitorWorld, find_monitor, is_active}

-- The arguments of Celery's `crontab`, with the timezone.
pub record Crontab : Type 0 where
  pub minute : ℕ
  pub hour : ℕ
  pub day_of_month : ℕ
  pub month_of_year : ℕ
  pub day_of_week : ℕ
  pub tz_name : ℕ

-- An entry runs `mlsc.run_monitor` for the monitor.
pub record Entry : Type 0 where
  pub schedule : Crontab
  pub monitor_id : ℕ

-- The fields of an expression that do not unpack into five, or that `crontab` refuses.
pub data ProjectError : Type 0 where
  not_five_fields crontab_refused : ProjectError

abbrev pub accepted : (Crontab → Bool) → Crontab → Result ProjectError Crontab
accepted accepts c = if accepts c then ok c else err crontab_refused

abbrev pub unpacked : (Crontab → Bool) → (tz_name : ℕ) → List ℕ → Result ProjectError Crontab
unpacked accepts tz_name (minute ∷ hour ∷ day ∷ month ∷ weekday ∷ []) = accepted accepts (record {
  minute = minute;
  hour = hour;
  day_of_month = day;
  month_of_year = month;
  day_of_week = weekday;
  tz_name = tz_name;
})
unpacked accepts tz_name _ = err not_five_fields

-- `_crontab_from_expression`; `accepts` tells which arguments Celery's parser takes.
abbrev pub crontab_from_expression :
    Tools → (Crontab → Bool) → (cron tz_name : ℕ) → Result ProjectError Crontab
crontab_from_expression tools accepts cron tz_name = unpacked accepts tz_name (tools.split cron)

abbrev pub is_active_monitor : Option Monitor → Bool
is_active_monitor none = false
is_active_monitor (some m) = is_active m.status

-- `ScheduleRegistrationRepository.list_active`
abbrev pub list_active : MonitorWorld → List ScheduleRegistration
list_active w =
    filter (λ r. is_active_monitor (find_monitor r.monitor_id w.monitors)) w.registrations

-- The entries, keyed by the monitor in the name of an entry. The two tests of one round of the loop are
-- made before the rest of it.
abbrev pub with_entry :
    ScheduleRegistration
    → Result ProjectError Crontab
    → Store Entry
    → Result ProjectError (Store Entry)
with_entry r (err e) entries = err e
with_entry r (ok c) entries =
    ok (update entries r.monitor_id (some (record { schedule = c; monitor_id = r.monitor_id })))

abbrev pub project_one :
    Tools
    → (Crontab → Bool)
    → ScheduleRegistration
    → Store Entry
    → Result ProjectError (Store Entry)
project_one tools accepts r entries =
    if tools.croniter_is_valid r.cron_expression
    then (with_entry r (crontab_from_expression tools accepts r.cron_expression r.timezone) entries)
    else ok entries

abbrev pub project_each :
    Tools
    → (Crontab → Bool)
    → List ScheduleRegistration
    → Store Entry
    → Result ProjectError (Store Entry)
project_each tools accepts [] entries = ok entries
project_each tools accepts (r ∷ rest) entries = elim (project_one tools accepts r entries) [
  | err e ↦ err e
  | ok entries' ↦ project_each tools accepts rest entries'
]

-- `SchedulePlanner.project`
unfoldable pub project : Tools → (Crontab → Bool) → MonitorWorld → Result ProjectError (Store Entry)
project tools accepts w = project_each tools accepts (list_active w) (λ id. none)
