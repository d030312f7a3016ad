-- ===== src/Monitors.antt =====
-- mlsc/application/monitors.py and mlsc/repositories/monitors.py: the creation and the change of
-- monitors, each with its registration in one transaction. A session that raises leaves the database as
-- it was.
use Prim.Native.String.{String}
use text.Mathlib.Text.{◌==◌ as str_eq}
use mlsc.Base.{
  ℕ, Option, none, some, Bool, true, false, not, ◌&&◌, ◌||◌, List, [], ◌∷◌, ◌++◌, map, ◌==◌, leb,
  length, filter, any, if◌then◌else◌, Result, ok, err, ◌>>=◌,
}
use mlsc.Fetch.Json.{Json, str, array, nil, cons, Fields, end, lookup}
use mlsc.Models.Monitors.{
  TargetType, product, theme, MonitorStatus, active, Monitor, ScheduleRegistration, ThemeSeed,
}
use mlsc.Monitors.Requests.{
  Tools, MonitorCreateRequest, MonitorUpdateRequest, optional, validate_seed,
}
pub mod Requests
pub mod Beat
pub mod Registrations
pub mod Rows
pub mod Crons
pub mod Scheduling
pub mod Histories
pub mod Projection
mod Tests

pub data MonitorError : Type 0 where
  monitor_not_found : (monitor_id : ℕ) → MonitorError
  value_error key_error integrity_error multiple_results_found : MonitorError

pub record MonitorWorld : Type 0 where
  pub monitors : List Monitor
  pub registrations : List ScheduleRegistration
  pub theme_seeds : List ThemeSeed

abbrev pub or_else {ℓ} : {A : Type ℓ} → Option A → A → A
or_else none x = x
or_else (some y) x = y

-- `MonitorRepository.get`
abbrev pub find_monitor : ℕ → List Monitor → Option Monitor
find_monitor id [] = none
find_monitor id (m ∷ rest) =
    let later = find_monitor id rest in if m.id == id then some m else later

abbrev pub of_monitor : ℕ → ScheduleRegistration → Bool
of_monitor id r = r.monitor_id == id

abbrev pub new_registration : (id cron timezone : ℕ) → ScheduleRegistration
new_registration id cron timezone = record {
  monitor_id = id;
  cron_expression = cron;
  timezone = timezone;
}

abbrev pub rescheduled : (id cron timezone : ℕ) → ScheduleRegistration → ScheduleRegistration
rescheduled id cron timezone r =
    if of_monitor id r then record r { cron_expression = cron; timezone = timezone } else r

-- By what `scalar_one_or_none` finds.
abbrev pub upsert_found :
    (id cron timezone : ℕ)
    → List ScheduleRegistration
    → List ScheduleRegistration
    → Result MonitorError (List ScheduleRegistration)
upsert_found id cron timezone [] registrations =
    ok (registrations ++ (new_registration id cron timezone ∷ []))
upsert_found id cron timezone (r ∷ []) registrations =
    ok (map (rescheduled id cron timezone) registrations)
upsert_found id cron timezone (r ∷ s ∷ rest) registrations = err multiple_results_found

-- `ScheduleRegistrationRepository.upsert_active`
unfoldable pub upsert_active :
    (id cron timezone : ℕ)
    → List ScheduleRegistration
    → Result MonitorError (List ScheduleRegistration)
upsert_active id cron timezone registrations =
    upsert_found id cron timezone (filter (of_monitor id) registrations) registrations

-- `ScheduleRegistrationRepository.delete_all_for`
unfoldable pub delete_all_for : (id : ℕ) → List ScheduleRegistration → List ScheduleRegistration
delete_all_for id registrations = filter (λ r. not (of_monitor id r)) registrations

abbrev pub new_monitor : (id : ℕ) → MonitorCreateRequest → Monitor
new_monitor id request = record {
  id = id;
  name = request.name;
  target_type = request.target_type;
  seed = request.seed;
  schedule = request.cron_expression;
  timezone = request.timezone;
  status = active;
  retention_days = request.retention_days;
}

-- The insertion of a monitor, with its primary key.
abbrev pub insert : Monitor → List Monitor → Result MonitorError (List Monitor)
insert m monitors =
    if any (λ n. n.id == m.id) monitors then err integrity_error else ok (monitors ++ (m ∷ []))

-- The insertion of a theme's seed, with its primary key and its unique constraint.
abbrev pub add_theme_seed :
    (seed_id id : ℕ) → Option Json → List ThemeSeed → Result MonitorError (List ThemeSeed)
add_theme_seed seed_id id none theme_seeds = err key_error
add_theme_seed seed_id id (some description) theme_seeds =
    if any (λ s. (s.id == seed_id) || (s.monitor_id == id)) theme_seeds
    then err integrity_error
    else ok (
        theme_seeds
        ++ (record {
          id = seed_id;
          monitor_id = id;
          description = description;
          queries = nil;
          provenance = end;
        }
            ∷ []))

abbrev pub theme_seeded :
    (seed_id id : ℕ)
    → MonitorCreateRequest
    → TargetType
    → List ThemeSeed
    → Result MonitorError (List ThemeSeed)
theme_seeded seed_id id request product theme_seeds = ok theme_seeds
theme_seeded seed_id id request theme theme_seeds =
    add_theme_seed seed_id id (lookup "description" request.seed) theme_seeds

-- `MonitorService.create`, with the identifiers that the source of UUIDs gives.
unfoldable pub create :
    (id seed_id : ℕ) → MonitorCreateRequest → MonitorWorld → Result MonitorError MonitorWorld
create id seed_id request w = insert (new_monitor id request) w.monitors >>= λ monitors.
    upsert_active id request.cron_expression request.timezone w.registrations >>= λ registrations.
    theme_seeded seed_id id request request.target_type w.theme_seeds >>= λ theme_seeds.
    ok (record { monitors = monitors; registrations = registrations; theme_seeds = theme_seeds })

abbrev pub validated_seed : Tools → TargetType → Option Fields → Bool
validated_seed tools target_type seed = optional (validate_seed tools target_type) seed

abbrev pub updated : MonitorUpdateRequest → Monitor → Monitor
updated request m = record m {
  name = or_else request.name m.name;
  seed = or_else request.seed m.seed;
  schedule = or_else request.cron_expression m.schedule;
  timezone = or_else request.timezone m.timezone;
  retention_days = or_else request.retention_days m.retention_days;
  status = or_else request.status m.status;
}

abbrev pub is_active : MonitorStatus → Bool
is_active active = true
is_active _ = false

-- The registration that goes with a status.
abbrev pub reregistered :
    Monitor → List ScheduleRegistration → Result MonitorError (List ScheduleRegistration)
reregistered m registrations =
    if is_active m.status
    then (upsert_active m.id m.schedule m.timezone registrations)
    else ok (delete_all_for m.id registrations)

abbrev pub store_monitor : Monitor → List Monitor → List Monitor
store_monitor m monitors = map (λ n. if n.id == m.id then m else n) monitors

abbrev pub update_found :
    Tools
    → (monitor_id : ℕ) → MonitorUpdateRequest
    → MonitorWorld
    → Option Monitor
    → Result MonitorError MonitorWorld
update_found tools monitor_id request w none = err (monitor_not_found monitor_id)
update_found tools monitor_id request w (some m) =
    if validated_seed tools m.target_type request.seed
    then (reregistered (updated request m) w.registrations >>= λ registrations. ok (record w {
      monitors = store_monitor (updated request m) w.monitors;
      registrations = registrations;
    }))
    else err value_error

-- `MonitorService.update`
unfoldable pub update :
    Tools
    → (monitor_id : ℕ) → MonitorUpdateRequest
    → MonitorWorld
    → Result MonitorError MonitorWorld
update tools monitor_id request w =
    update_found tools monitor_id request w (find_monitor monitor_id w.monitors)
