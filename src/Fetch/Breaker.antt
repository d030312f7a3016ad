-- ===== src/Fetch/Breaker.antt =====
-- mlsc/core/fetch/breaker.py: one circuit breaker for each host, whose state lives in Redis under
-- two keys for each host. Times are clock readings in whole ticks.
pub mod Machine
pub mod Streak
use mlsc.Base.{
  ℕ, ◌+◌, Option, none, some, Bool, true, false, Store, update, ltb, leb, if◌then◌else◌,
}
use mlsc.Fetch.Contracts.{BreakerOpen}

pub record BreakerSettings : Type 0 where
  pub failure_threshold : ℕ
  pub cooldown_seconds : ℕ

-- The Redis keys under the breaker's prefix, each family by host.
pub record BreakerKeys : Type 0 where
  pub failures : Store ℕ
  pub opened_until : Store ℕ

-- Redis `DEL` of both keys of a host.
abbrev pub delete_both : ℕ → BreakerKeys → BreakerKeys
delete_both host k = record {
  failures = update k.failures host none;
  opened_until = update k.opened_until host none;
}

-- Returns the exception that it raises, if any.
unfoldable pub check : (now : ℕ) → ℕ → BreakerKeys → Option BreakerOpen × BreakerKeys
check now host k = elim (k.opened_until host) [
  | none ↦ (none, k)
  | some until ↦
      if ltb now until
      then (some (record { host_key = host; opened_until = until }), k)
      else (none, delete_both host k)
]

unfoldable pub record_success : ℕ → BreakerKeys → BreakerKeys
record_success host k = delete_both host k

-- Redis `INCR`: a missing key counts as zero.
abbrev pub incremented : Option ℕ → ℕ
incremented none = 1
incremented (some n) = n + 1

unfoldable pub record_failure : BreakerSettings → (now : ℕ) → ℕ → BreakerKeys → BreakerKeys
record_failure settings now host k =
    let failures = incremented (k.failures host) in
    let counted = record k { failures = update k.failures host (some failures) } in
    if leb settings.failure_threshold failures
    then record counted {
      opened_until = update k.opened_until host (some (now + settings.cooldown_seconds));
    }
    else counted
