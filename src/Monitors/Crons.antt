-- ===== src/Monitors/Crons.antt =====
-- The expressions that pass the validators of the requests.
use mlsc.Base.{
  ℕ, ◌≡◌, refl, subst, Option, none, some, Bool, true, false, ◌&&◌, if◌then◌else◌, Result, ok, err,
}
use mlsc.Monitors.Requests.{
  Tools, MonitorCreateRequest, MonitorUpdateRequest, optional, validate_cron_expression,
  validate_create, validate_update, others_valid, other_changes_valid, strip_name,
}
use mlsc.Monitors.{MonitorError, or_else}

-- A guarded result.
pub guard_some :
    {A : Type 0} (b c : Bool) (x y : A)
    → (if b && c then some x else none) ≡ some y
    → (b ≡ true) × (x ≡ y)
guard_some true true x y same = (refl, cc)
guard_some true false x y same = absurd cc
guard_some false c x y same = absurd cc

pub validate_create-cron :
    (tools : Tools) (raw request : MonitorCreateRequest)
    → validate_create tools raw ≡ some request
    → validate_cron_expression tools request.cron_expression ≡ true
unfolding validate_create
validate_create-cron tools raw request valid =
    let checked =
      guard_some (validate_cron_expression tools raw.cron_expression) (others_valid tools raw)
        (record raw { name = tools.strip raw.name }) request valid in
    subst (λ x. validate_cron_expression tools x.cron_expression ≡ true) checked.1 checked.0

pub validate_update-cron :
    (tools : Tools) (raw request : MonitorUpdateRequest)
    → validate_update tools raw ≡ some request
    → optional (validate_cron_expression tools) request.cron_expression ≡ true
unfolding validate_update
validate_update-cron tools raw request valid =
    let checked =
      guard_some (optional (validate_cron_expression tools) raw.cron_expression)
        (other_changes_valid tools raw) (record raw { name = strip_name tools raw.name }) request
        valid in
    subst (λ x. optional (validate_cron_expression tools) x.cron_expression ≡ true) checked.1
      checked.0

pub or_else-valid :
    (test : ℕ → Bool) (given : Option ℕ) (old : ℕ)
    → optional test given ≡ true
    → test old ≡ true
    → test (or_else given old) ≡ true
or_else-valid test none old h h' = h'
or_else-valid test (some x) old h h' = h

pub guard_ok :
    {A : Type 0} (b : Bool) (x : Result MonitorError A) (raised : MonitorError) (y : A)
    → (if b then x else err raised) ≡ ok y
    → x ≡ ok y
guard_ok true x raised y same = same
guard_ok false x raised y same = absurd cc
