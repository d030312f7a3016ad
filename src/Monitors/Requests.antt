-- ===== src/Monitors/Requests.antt =====
-- mlsc/schemas/monitors.py: the requests of monitors and their validators.
use Prim.Native.String.{String}
use text.Mathlib.Text.{◌==◌ as str_eq}
use mlsc.Base.{
  ℕ, Option, none, some, Bool, true, false, not, ◌&&◌, List, ◌==◌, leb, length, if◌then◌else◌,
}
use mlsc.Fetch.Json.{Json, str, array, cons, Fields, lookup}
use mlsc.Models.Monitors.{TargetType, product, theme, MonitorStatus}

-- What Python, croniter and the timezone database answer.
pub record Tools : Type 0 where
  pub strip : String → String
  pub split : ℕ → List ℕ
  pub croniter_is_valid : ℕ → Bool
  pub is_timezone : ℕ → Bool

pub record MonitorCreateRequest : Type 0 where
  pub name : String
  pub target_type : TargetType
  pub seed : Fields
  pub cron_expression : ℕ
  pub timezone : ℕ
  pub retention_days : ℕ

pub record MonitorUpdateRequest : Type 0 where
  pub name : Option String
  pub seed : Option Fields
  pub cron_expression : Option ℕ
  pub timezone : Option ℕ
  pub retention_days : Option ℕ
  pub status : Option MonitorStatus

-- A validator of a field that may be absent.
abbrev pub optional {ℓ} : {A : Type ℓ} → (A → Bool) → Option A → Bool
optional test none = true
optional test (some x) = test x

abbrev pub is_blank : Tools → String → Bool
is_blank tools s = str_eq (tools.strip s) ""

-- The shape of a seed, by what the monitor watches.
abbrev pub is_identifiers : Option Json → Bool
is_identifiers (some (array (cons j items))) = true
is_identifiers _ = false

abbrev pub is_description : Tools → Option Json → Bool
is_description tools (some (str s)) = not (is_blank tools s)
is_description tools _ = false

unfoldable pub validate_seed : Tools → TargetType → Fields → Bool
validate_seed tools product seed = is_identifiers (lookup "identifiers" seed)
validate_seed tools theme seed = is_description tools (lookup "description" seed)

abbrev pub validate_cron_expression : Tools → ℕ → Bool
validate_cron_expression tools cron =
    (length (tools.split cron) == 5) && tools.croniter_is_valid cron

-- The validators of the other fields of a new monitor, and of a change.
abbrev pub others_valid : Tools → MonitorCreateRequest → Bool
others_valid tools request =
    (not (is_blank tools request.name) && tools.is_timezone request.timezone)
    && (leb 1 request.retention_days && validate_seed tools request.target_type request.seed)

abbrev pub other_changes_valid : Tools → MonitorUpdateRequest → Bool
other_changes_valid tools request =
    optional (λ name. not (is_blank tools name)) request.name
    && (optional tools.is_timezone request.timezone && optional (leb 1) request.retention_days)

-- The validators of the two requests: nothing where one of them raises.
unfoldable pub validate_create : Tools → MonitorCreateRequest → Option MonitorCreateRequest
validate_create tools request =
    if validate_cron_expression tools request.cron_expression && others_valid tools request
    then some (record request { name = tools.strip request.name })
    else none

abbrev pub strip_name : Tools → Option String → Option String
strip_name tools none = none
strip_name tools (some name) = some (tools.strip name)

unfoldable pub validate_update : Tools → MonitorUpdateRequest → Option MonitorUpdateRequest
validate_update tools request =
    if optional (validate_cron_expression tools) request.cron_expression
      && other_changes_valid tools request
    then some (record request { name = strip_name tools request.name })
    else none
