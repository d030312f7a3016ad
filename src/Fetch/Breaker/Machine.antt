-- ===== src/Fetch/Breaker/Machine.antt =====
-- The breaker of one host as a two-state machine, against the Redis keys that all hosts share.
use mlsc.Base.{
  ℕ, ◌+◌, ◌≤◌, ◌≡◌, ◌≢◌, refl, ap, Option, none, some, true, false, List, [], ◌∷◌, arith, ltb, leb,
  ◌==◌, if◌then◌else◌, Bool-cases, inl, inr, ◌⊎◌, ◌∙◌, sym, ==_iff, is_some,
}
use mlsc.Fetch.Contracts.{BreakerOpen}
use mlsc.Fetch.Breaker.{BreakerSettings, BreakerKeys, check, record_success, record_failure}

-- What callers do to the breaker; each call names its host, and reads the clock.
pub data Event : Type 0 where
  checked : (now host : ℕ) → Event
  succeeded : (host : ℕ) → Event
  failed : (now host : ℕ) → Event

abbrev pub no_keys : BreakerKeys
no_keys = record { failures = λ _. none; opened_until = λ _. none }

pub apply : BreakerSettings → Event → BreakerKeys → BreakerKeys
unfolding check record_success record_failure
apply settings (checked now host) k = (check now host k).1
apply settings (succeeded host) k = record_success host k
apply settings (failed now host) k = record_failure settings now host k

pub run : BreakerSettings → List Event → BreakerKeys → BreakerKeys
unfolding apply
run settings [] k = k
run settings (e ∷ es) k = run settings es (apply settings e k)

-- The specification: `closed` counts the consecutive failures, `open` refuses until a time.
pub data Machine : Type 0 where
  closed : ℕ → Machine
  open_until : ℕ → Machine

abbrev pub event_host : Event → ℕ
event_host (checked _ host) = host
event_host (succeeded host) = host
event_host (failed _ host) = host

abbrev pub step : BreakerSettings → Event → Machine → Machine
step settings (checked now _) (closed n) = closed n
step settings (checked now _) (open_until u) = if ltb now u then open_until u else closed 0
step settings (succeeded _) m = closed 0
step settings (failed now _) (closed n) =
    if leb settings.failure_threshold (n + 1)
    then open_until (now + settings.cooldown_seconds)
    else closed (n + 1)
step settings (failed now _) (open_until u) = open_until (now + settings.cooldown_seconds)

-- The machine of one host takes the events of that host only.
abbrev pub run_machine : BreakerSettings → ℕ → List Event → Machine → Machine
run_machine settings host [] m = m
run_machine settings host (e ∷ es) m =
    run_machine settings host es (if event_host e == host then step settings e m else m)

abbrev pub verdict : (now : ℕ) → ℕ → Machine → Option BreakerOpen
verdict now host (closed n) = none
verdict now host (open_until u) =
    if ltb now u then some (record { host_key = host; opened_until = u }) else none

-- The state of a host's machine, read off its two keys.
abbrev pub count : Option ℕ → ℕ
count none = 0
count (some n) = n

abbrev pub state : Option ℕ → Option ℕ → Machine
state failures none = closed (count failures)
state failures (some u) = open_until u

abbrev pub machine_of : ℕ → BreakerKeys → Machine
machine_of host k = state (k.failures host) (k.opened_until host)

-- A host is open exactly when its failures have reached the threshold.
abbrev pub IsValid : BreakerSettings → ℕ → BreakerKeys → Type 0
IsValid settings host k =
    is_some (k.opened_until host) ≡ leb settings.failure_threshold (count (k.failures host))

module _ (settings : BreakerSettings) where
  apply-IsValid :
      (host : ℕ) (e : Event) (k : BreakerKeys)
      → 1 ≤ settings.failure_threshold
      → IsValid settings host k
      → IsValid settings host (apply settings e k)
  unfolding apply
  apply-IsValid host (checked now h) k tripping v = ground arith
  apply-IsValid host (succeeded h) k tripping v = ground arith
  apply-IsValid host (failed now h) k tripping v = ground arith

  -- An event of another host changes neither key of this one.
  apply-other :
      (host : ℕ) (e : Event) (k : BreakerKeys)
      → event_host e ≢ host
      → machine_of host (apply settings e k) ≡ machine_of host k
  unfolding apply
  apply-other host (checked now h) k ne = ground arith
  apply-other host (succeeded h) k ne = ground arith
  apply-other host (failed now h) k ne = ground arith

  apply-step :
      (e : Event) (k : BreakerKeys)
      → IsValid settings (event_host e) k
      → machine_of (event_host e) (apply settings e k)
        ≡ step settings e (machine_of (event_host e) k)
  unfolding apply
  apply-step (checked now h) k v = ground arith
  apply-step (succeeded h) k v = ground arith
  apply-step (failed now h) k v = ground arith

  run-machine :
      (host : ℕ) (es : List Event) (k : BreakerKeys)
      → 1 ≤ settings.failure_threshold
      → IsValid settings host k
      → machine_of host (run settings es k) ≡ run_machine settings host es (machine_of host k)
  unfolding run
  run-machine host [] k tripping v = refl
  run-machine host (e ∷ es) k tripping v =
      run-machine host es (apply settings e k) tripping (apply-IsValid host e k tripping v)
      ∙ ap (run_machine settings host es) (own_step (Bool-cases (event_host e == host)))
    where
      own_step :
          ((event_host e == host) ≡ true) ⊎ ((event_host e == host) ≡ false)
          → machine_of host (apply settings e k) ≡ (
              if event_host e == host
              then step settings e (machine_of host k)
              else machine_of host k)
      own_step (inl own) =
          rw (own, sym ((==_iff (event_host e) host).0 own))
            (apply-step e k (rw ((==_iff (event_host e) host).0 own) v))
      own_step (inr other) = rw other (apply-other host e k (λ same. ground arith))

  check-verdict :
      (now host : ℕ) (k : BreakerKeys) → (check now host k).0 ≡ verdict now host (machine_of host k)
  unfolding check
  check-verdict now host k = ground arith

-- Keys that a success has just left are those of a closed breaker with no failures.
pub check-run_after_success :
    (settings : BreakerSettings) (now host : ℕ) (es : List Event) (k : BreakerKeys)
    → 1 ≤ settings.failure_threshold
    → (check now host (run settings (succeeded host ∷ es) k)).0
      ≡ verdict now host (run_machine settings host es (closed 0))
unfolding run apply
check-run_after_success settings now host es k tripping =
    check-verdict settings now host (run settings es (record_success host k))
    ∙ ap (verdict now host) (
        run-machine settings host es (record_success host k) tripping (ground arith)
        ∙ ap (run_machine settings host es) (ground arith))

-- If the threshold is at least one and no key exists at first, then whatever is called, for whichever
-- hosts and in whichever order, a later check answers as the machine of its own host does, which starts
-- closed: it refuses while the machine is open and the cooldown lasts.
pub check-refines_machine :
    (settings : BreakerSettings) (now host : ℕ) (es : List Event)
    → 1 ≤ settings.failure_threshold
    → (check now host (run settings es no_keys)).0
      ≡ verdict now host (run_machine settings host es (closed 0))
check-refines_machine settings now host es tripping =
    check-verdict settings now host (run settings es no_keys)
    ∙ ap (verdict now host) (run-machine settings host es no_keys tripping (ground arith))

pub count-record_failure :
    (settings : BreakerSettings) (now host : ℕ) (k : BreakerKeys)
    → count ((record_failure settings now host k).failures host) ≡ count (k.failures host) + 1
unfolding record_failure
count-record_failure settings now host k = ground arith
