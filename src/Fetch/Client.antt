-- ===== src/Fetch/Client.antt =====
-- mlsc/core/fetch/client.py: `FetchClient.get` and `_send_with_retry`. The transports, the digest,
-- the decoders, the clock and the random source are parameters; Redis and the clock reading are the
-- state. The throttle's loop runs on fuel, and `get` returns nothing if the fuel runs out.
pub mod Retry
pub mod Explanations
pub mod Outcomes
pub mod Paths
use mlsc.Base.{ℕ, zero, suc, ◌+◌, ◌-◌, ◌*◌, ◌^◌, Option, none, some, Bool, Result, ok, err, Store}
use mlsc.Fetch.Contracts.{
  BreakerOpen, ClientProfile, FetchStatus, status_ok, validation_failed, transport_failed,
  skipped_breaker_open, FetchExpectations, FetchRequest, TransportResponse, Payload, Failure,
  breaker_open, transport_failure, validation, OutcomePayload, validated, failed, FetchOutcome,
}
use mlsc.Fetch.Breaker
use mlsc.Fetch.Breaker.{BreakerSettings, BreakerKeys}
use mlsc.Fetch.Throttle
use mlsc.Fetch.Throttle.{HostBudget, BucketKeys}
use mlsc.Fetch.Cache
use mlsc.Fetch.Cache.{CacheKey, Entry}
use mlsc.Fetch.Validate.{Decoders, Raised, guardrail, unicode_error, validate}

-- What a transport's `send` does, and how long it takes: it returns, or the HTTP library raises an error
-- that becomes `TransportFailure`, or another one, such as `httpx.InvalidURL`, that passes through.
pub data Sent : Type 0 where
  response : TransportResponse → (seconds : ℕ) → Sent
  no_response : (seconds : ℕ) → Sent
  other_exception : (seconds : ℕ) → Sent

-- What `send` raises.
pub data SendError : Type 0 where
  transport_raised other_raised : SendError

pub record Client : Type 0 where
  pub breaker : BreakerSettings
  pub host_budget : HostBudget
  pub ttl_seconds : ℕ
  pub max_transport_retries : ℕ
  pub retry_backoff_seconds : ℕ
  pub clock : Throttle.Environment
  pub digest : CacheKey → ℕ
  pub decoders : Decoders
  -- what the n-th send of all comes to, by the transport
  pub transport : ClientProfile → (n : ℕ) → FetchRequest → Sent
  -- whether Redis answers the cache's read and its write at a time
  pub cache_readable : ℕ → Bool
  pub cache_writable : ℕ → Bool

pub record World : Type 0 where
  pub breaker : BreakerKeys
  pub buckets : BucketKeys
  pub cache : Store Entry
  pub now : ℕ
  pub sends : ℕ

-- `_outcome`
abbrev pub outcome : FetchStatus → Failure → (library_version duration_seconds : ℕ) → FetchOutcome
outcome status failure library_version duration_seconds = record {
  status = status;
  payload = failed failure;
  served_from_cache = Bool.false;
  library_version = library_version;
  duration_seconds = duration_seconds;
}

module _ (c : Client) (request : FetchRequest) where
  abbrev pub after_success : World → World
  after_success w = record w { breaker = Breaker.record_success request.host_key w.breaker }

  abbrev pub after_failure : World → World
  after_failure w = record w {
    breaker = Breaker.record_failure c.breaker w.now request.host_key w.breaker;
  }

  -- One `transport.send`.
  unfoldable pub send : World → Result SendError TransportResponse × World
  send w = elim (c.transport request.client_profile w.sends request) [
    | response r seconds ↦ (ok r, record w { now = w.now + seconds; sends = w.sends + 1 })
    | no_response seconds ↦
        (err transport_raised, record w { now = w.now + seconds; sends = w.sends + 1 })
    | other_exception seconds ↦
        (err other_raised, record w { now = w.now + seconds; sends = w.sends + 1 })
  ]

  -- The failure recorded, and the backoff slept, before the next attempt.
  abbrev pub before_retry : (attempt : ℕ) → World → World
  before_retry attempt w =
      let recorded = after_failure w in
      record recorded { now = c.clock.sleep recorded.now (c.retry_backoff_seconds * 2 ^ attempt) }

  -- The `while True` of `_send_with_retry`, by recursion on the retries that are left after this
  -- attempt; `attempt` counts those made. Without any left the failure is raised again, and any other
  -- exception passes through.
  unfoldable pub send_with_retry :
      (left attempt : ℕ) → World → Result SendError TransportResponse × World
  send_with_retry zero attempt w =
      let (sent, w') = send w in
      elim sent [
        | ok r ↦ (ok r, w')
        | err transport_raised ↦ (err transport_raised, after_failure w')
        | err other_raised ↦ (err other_raised, w')
      ]
  send_with_retry (suc left) attempt w =
      let (sent, w') = send w in
      elim sent [
        | ok r ↦ (ok r, w')
        | err transport_raised ↦ send_with_retry left (attempt + 1) (before_retry attempt w')
        | err other_raised ↦ (err other_raised, w')
      ]

  -- A validated response: the success is recorded, and the outcome cached and returned.
  abbrev pub delivered : TransportResponse → (duration : ℕ) → Payload → World → FetchOutcome × World
  delivered r duration items w =
      let w' = after_success w in
      let fetched : FetchOutcome = record {
        status = status_ok;
        payload = validated items;
        served_from_cache = Bool.false;
        library_version = r.library_version;
        duration_seconds = duration;
      } in
      (
        fetched,
        record w' {
          cache =
              Cache.store c.digest (c.cache_writable w'.now) c.ttl_seconds w'.now request fetched
                w'.cache;
        },
      )

  -- After validation. A decoding error is caught nowhere, as other exceptions of the transport.
  abbrev pub judged :
      TransportResponse
      → (duration : ℕ) → World
      → Result Raised Payload
      → Result (Unit {0}) FetchOutcome × World
  judged r duration w (ok items) =
      let (fetched, w') = delivered r duration items w in (ok fetched, w')
  judged r duration w (err (guardrail e)) =
      (ok (outcome validation_failed (validation e) r.library_version duration), after_success w)
  judged r duration w (err unicode_error) = (err tt, w)

  -- After the sends, which began at the given time.
  abbrev pub received :
      FetchExpectations
      → (started_at : ℕ) → Result SendError TransportResponse × World
      → Result (Unit {0}) FetchOutcome × World
  received expectations started_at (err transport_raised, w) =
      (ok (outcome transport_failed (transport_failure request.host_key) 0 0), w)
  received expectations started_at (err other_raised, w) = (err tt, w)
  received expectations started_at (ok r, w) =
      judged r (w.now - started_at) w (validate c.decoders r.content_type r.body expectations)

  -- After the throttle.
  unfoldable pub fetch_live : FetchExpectations → World → Result (Unit {0}) FetchOutcome × World
  fetch_live expectations w =
      received expectations w.now (send_with_retry c.max_transport_retries 0 w)

  abbrev pub throttled :
      FetchExpectations
      → World
      → Option (ℕ × BucketKeys)
      → Option (Result (Unit {0}) FetchOutcome × World)
  throttled expectations w none = none
  throttled expectations w (some (now, buckets)) =
      some (fetch_live expectations (record w { now = now; buckets = buckets }))

  -- After the breaker admitted the request.
  abbrev pub admitted :
      (fuel : ℕ)
      → FetchExpectations
      → World
      → Option FetchOutcome
      → Option (Result (Unit {0}) FetchOutcome × World)
  admitted fuel expectations w (some cached) = some (ok cached, w)
  admitted fuel expectations w none =
      throttled expectations w
        (Throttle.acquire c.clock c.host_budget request.host_key fuel w.now w.buckets)

  abbrev pub checked :
      (fuel : ℕ)
      → FetchExpectations
      → World
      → Option BreakerOpen
      → Option (Result (Unit {0}) FetchOutcome × World)
  checked fuel expectations w (some e) =
      some (ok (outcome skipped_breaker_open (breaker_open e) 0 0), w)
  checked fuel expectations w none =
      admitted fuel expectations w
        (Cache.lookup c.digest (c.cache_readable w.now) w.now request w.cache)

  -- `FetchClient.get`
  unfoldable pub get :
      (fuel : ℕ) → FetchExpectations → World → Option (Result (Unit {0}) FetchOutcome × World)
  get fuel expectations w =
      let (refused, breaker) = Breaker.check w.now request.host_key w.breaker in
      checked fuel expectations (record w { breaker = breaker }) refused
