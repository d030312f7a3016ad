-- ===== src/Monitors/Tests.antt =====
-- A monitor that is created, paused and resumed with another schedule.
use mlsc.Base.{ℕ, ◌≡◌, refl, none, some, Bool, true, [], ◌∷◌, Result, ok, err, Store}
use mlsc.Fetch.Json.{str, array, nil, cons, field, end}
use mlsc.Models.Monitors.{product, active, paused}
use mlsc.Monitors.Requests.{
  Tools, MonitorCreateRequest, MonitorUpdateRequest, validate_create, validate_update,
  validate_seed,
}
use mlsc.Monitors.{
  MonitorError, MonitorWorld, upsert_active, delete_all_for, create, update, find_monitor,
}
use mlsc.Monitors.Beat.{Crontab, Entry, project}
use mlsc.Monitors.Histories.{empty, Reach, start, then_step, created, changed}
use mlsc.Monitors.Projection.{Planned, project-Planned}

abbrev five_fields : Tools
five_fields = record {
  strip = λ s. s;
  split = λ cron. cron ∷ 0 ∷ 1 ∷ 1 ∷ 1 ∷ [];
  croniter_is_valid = λ cron. true;
  is_timezone = λ timezone. true;
}

abbrev any_crontab : Crontab → Bool
any_crontab c = true

abbrev notes : MonitorCreateRequest
notes = record {
  name = "Notes";
  target_type = product;
  seed = field "identifiers" (array (cons (str "com.example.notes") nil)) end;
  cron_expression = 30;
  timezone = 2;
  retention_days = 90;
}

abbrev no_change : MonitorUpdateRequest
no_change = record {
  name = none;
  seed = none;
  cron_expression = none;
  timezone = none;
  retention_days = none;
  status = none;
}

abbrev pause : MonitorUpdateRequest
pause = record no_change { status = some paused }

abbrev resume_at_45 : MonitorUpdateRequest
resume_at_45 = record no_change { status = some active; cron_expression = some 45 }

abbrev commit : Result MonitorError MonitorWorld → MonitorWorld
commit (ok w) = w
commit (err e) = empty

abbrev with_notes : MonitorWorld
unfolding create
with_notes = commit (create 1 2 notes empty)

abbrev with_pause : MonitorWorld
unfolding create update
with_pause = commit (update five_fields 1 pause with_notes)

abbrev with_resume : MonitorWorld
unfolding create update
with_resume = commit (update five_fields 1 resume_at_45 with_pause)

resumed-Reach : Reach five_fields with_resume
unfolding create update validate_create validate_update validate_seed upsert_active delete_all_for
resumed-Reach =
    then_step
      (then_step (then_step start (created 1 2 notes notes empty with_notes refl refl))
        (changed 1 pause pause with_notes with_pause refl refl))
      (changed 1 resume_at_45 resume_at_45 with_pause with_resume refl refl)

paused-test : with_pause.registrations ≡ []
unfolding create update upsert_active delete_all_for
paused-test = refl

project-Planned_example :
    (entries : Store Entry) × (project five_fields any_crontab with_resume ≡ ok entries)
    × ((k : ℕ) → Planned five_fields any_crontab (find_monitor k with_resume.monitors) (entries k))
unfolding create update upsert_active delete_all_for
project-Planned_example = project-Planned five_fields any_crontab with_resume resumed-Reach (
  (
    record {
      minute = 45;
      hour = 0;
      day_of_month = 1;
      month_of_year = 1;
      day_of_week = 1;
      tz_name = 2;
    },
    refl,
  ),
  tt,
)
