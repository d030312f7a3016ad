-- ===== src/Fetch/Breaker/Streak.antt =====
-- When a breaker trips, told by the run of failures itself.
use mlsc.Base.{
  ℕ, ◌+◌, ◌≤◌, ◌<◌, ◌≡◌, ap, ◌∙◌, some, none, List, [], ◌∷◌, arith, ltb, leb, ◌&&◌, if◌then◌else◌,
  length,
}
use mlsc.Fetch.Breaker.{BreakerSettings, BreakerKeys, check}
use mlsc.Fetch.Breaker.Machine.{
  Event, succeeded, failed, run, closed, open_until, run_machine, verdict, check-run_after_success,
}

-- Failures of one host at the given times, and one more at the last.
abbrev pub failures_at : ℕ → List ℕ → ℕ → List Event
failures_at host [] last = failed last host ∷ []
failures_at host (now ∷ times) last = failed now host ∷ failures_at host times last

module _ (settings : BreakerSettings) (host last : ℕ) where
  open-failures :
      (times : List ℕ) (u : ℕ)
      → run_machine settings host (failures_at host times last) (open_until u)
        ≡ open_until (last + settings.cooldown_seconds)
  open-failures [] u = ground arith
  open-failures (now ∷ times) u =
      ground (arith, open-failures times (now + settings.cooldown_seconds))

  closed-failures :
      (times : List ℕ) (n : ℕ)
      → n < settings.failure_threshold
      → run_machine settings host (failures_at host times last) (closed n) ≡ (
          if leb settings.failure_threshold (n + 1 + length times)
          then open_until (last + settings.cooldown_seconds)
          else closed (n + 1 + length times))
  closed-failures [] n below = ground arith
  closed-failures (now ∷ times) n below =
      ground (
        arith,
        open-failures times (now + settings.cooldown_seconds),
        closed-failures times (n + 1),
      )

-- With a threshold of at least one: after a success, a run of failures makes the host refuse exactly when the run has reached the
-- threshold and the cooldown since its last failure is not over; the refusal names that time.
pub check-after_failures :
    (settings : BreakerSettings) (host : ℕ) (times : List ℕ) (last now : ℕ) (k : BreakerKeys)
    → 1 ≤ settings.failure_threshold
    → (check now host (run settings (succeeded host ∷ failures_at host times last) k)).0 ≡ (
        if leb settings.failure_threshold (length times + 1)
          && ltb now (last + settings.cooldown_seconds)
        then some (record { host_key = host; opened_until = last + settings.cooldown_seconds })
        else none)
check-after_failures settings host times last now k tripping =
    check-run_after_success settings now host (failures_at host times last) k tripping
    ∙ ap (verdict now host) (closed-failures settings host last times 0 tripping)
    ∙ ground arith
