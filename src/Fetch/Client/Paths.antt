-- ===== src/Fetch/Client/Paths.antt =====
-- What `get` skips, and what it remembers.
use mlsc.Base.{
  subst, Bool, ◌==◌, ==_refl, ℕ, ◌+◌, ◌≤◌, ◌<◌, ◌≡◌, refl, Option, none, some, true, false, arith,
  Result, ok, err, Store, ltb, lt→ltb,
}
use mlsc.Fetch.Contracts.{
  BreakerOpen, status_ok, skipped_breaker_open, FetchExpectations, FetchRequest, TransportResponse,
  Payload, breaker_open, FetchOutcome,
}
use mlsc.Fetch.Breaker.{BreakerKeys, check, record_success}
use mlsc.Fetch.Throttle.{BucketKeys}
use mlsc.Fetch.Cache
use mlsc.Fetch.Validate.{Raised, guardrail, unicode_error}
use mlsc.Fetch.Client.{
  SendError, transport_raised, other_raised, Client, World, outcome, delivered, judged, received,
  throttled, admitted, checked, fetch_live, get,
}

check-refuses :
    (now host : ℕ) (k : BreakerKeys) (until : ℕ)
    → k.opened_until host ≡ some until
    → now < until
    → check now host k ≡ (some (record { host_key = host; opened_until = until }), k)
unfolding check
check-refuses now host k until opened early = rw (check, opened) (rw (lt→ltb now until early) refl)

check-closes :
    (now host : ℕ) (k : BreakerKeys)
    → (check now host k).0 ≡ none
    → (check now host k).1.opened_until host ≡ none
unfolding check
check-closes now host k admitted = ground arith

check-closed :
    (now host : ℕ) (k : BreakerKeys) → k.opened_until host ≡ none → check now host k ≡ (none, k)
unfolding check
check-closed now host k closed = rw (check, closed) refl

lookup-served :
    (digest : Cache.CacheKey → ℕ) (online : Bool) (now : ℕ) (request : FetchRequest)
    (cache : Store Cache.Entry) (o : FetchOutcome)
    → some o ≡ Cache.lookup digest online now request cache
    → Cache.lookup digest true now request cache ≡ some (record o { served_from_cache = true })
unfolding Cache.lookup
lookup-served digest false now request cache o found = cc
lookup-served digest true now request cache o found = ground arith

-- While the breaker of a host is open, `get` sends nothing, waits for nothing and changes nothing:
-- it returns a skipped outcome that names the host and the end of the cooldown.
pub get-skipped :
    (c : Client) (request : FetchRequest) (fuel : ℕ) (e : FetchExpectations) (w : World) (until : ℕ)
    → w.breaker.opened_until request.host_key ≡ some until
    → w.now < until
    → get c request fuel e w
      ≡ some (
        ok (
            outcome skipped_breaker_open
              (breaker_open (record { host_key = request.host_key; opened_until = until }))
              0
              0),
        w,
      )
unfolding get
get-skipped c request fuel e w until opened early =
    rw (check-refuses w.now request.host_key w.breaker until opened early) refl

-- A second request right after a validated one.
module _ (c : Client) (request : FetchRequest) where
  Remembered : FetchOutcome → World → Type 0
  Remembered o w =
      (w.breaker.opened_until request.host_key ≡ none)
      × (Cache.lookup c.digest true w.now request w.cache
          ≡ some (record o { served_from_cache = true }))

  abbrev AllRemembered : Option (Result (Unit {0}) FetchOutcome × World) → Type 0
  AllRemembered (some (ok o, w)) = o.status ≡ status_ok → Remembered o w
  AllRemembered _ = Unit

  module _ (ttl : 1 ≤ c.ttl_seconds) (writable : (t : ℕ) → c.cache_writable t ≡ true)
      (readable : (t : ℕ) → c.cache_readable t ≡ true) where
    ttl_positive : (c.ttl_seconds == 0) ≡ false
    ttl_positive = ground arith

    fresh : (now : ℕ) → ltb now (now + c.ttl_seconds) ≡ true
    fresh now = lt→ltb now (now + c.ttl_seconds) (omega arith)

    delivered-Remembered :
        (r : TransportResponse) (duration : ℕ) (w : World) (items : Payload)
        → Remembered
            (delivered c request r duration items w).0
            (delivered c request r duration items w).1
    unfolding Remembered Cache.store Cache.lookup record_success
    delivered-Remembered r duration w items =
        let d = c.digest (Cache.cache_key request) in
        (
          rw (==_refl request.host_key) refl,
          rw (writable w.now, ttl_positive) (rw (Cache.lookup, ==_refl d) (rw (fresh w.now) refl)),
        )

    judged-Remembered :
        (r : TransportResponse) (duration : ℕ) (w : World) (v : Result Raised Payload)
        → AllRemembered (some (judged c request r duration w v))
    judged-Remembered r duration w (ok items) = λ is_ok. delivered-Remembered r duration w items
    judged-Remembered r duration w (err (guardrail f)) = λ is_ok. cc
    judged-Remembered r duration w (err unicode_error) = tt

    received-Remembered :
        (e : FetchExpectations) (started_at : ℕ) (r : Result SendError TransportResponse × World)
        → AllRemembered (some (received c request e started_at r))
    received-Remembered e started_at (err transport_raised, w) = λ is_ok. cc
    received-Remembered e started_at (err other_raised, w) = tt
    received-Remembered e started_at (ok r, w) = judged-Remembered r _ w _

    throttled-Remembered :
        (e : FetchExpectations) (w : World) (acquired : Option (ℕ × BucketKeys))
        → AllRemembered (throttled c request e w acquired)
    unfolding fetch_live
    throttled-Remembered e w none = tt
    throttled-Remembered e w (some a) = received-Remembered e _ _

    admitted-Remembered :
        (fuel : ℕ) (e : FetchExpectations) (w : World) (cached : Option FetchOutcome)
        → w.breaker.opened_until request.host_key ≡ none
        → cached ≡ Cache.lookup c.digest (c.cache_readable w.now) w.now request w.cache
        → AllRemembered (admitted c request fuel e w cached)
    unfolding Remembered
    admitted-Remembered fuel e w none closed found = throttled-Remembered e w _
    admitted-Remembered fuel e w (some o) closed found = λ is_ok.
        (closed, lookup-served c.digest (c.cache_readable w.now) w.now request w.cache o found)

    checked-Remembered :
        (fuel : ℕ) (e : FetchExpectations) (w : World) (refused : Option BreakerOpen)
        → (refused ≡ none → w.breaker.opened_until request.host_key ≡ none)
        → AllRemembered (checked c request fuel e w refused)
    checked-Remembered fuel e w (some r) closes = λ is_ok. cc
    checked-Remembered fuel e w none closes = admitted-Remembered fuel e w _ (closes refl) refl

    get-Remembered :
        (fuel : ℕ) (e : FetchExpectations) (w : World) → AllRemembered (get c request fuel e w)
    unfolding get
    get-Remembered fuel e w =
        checked-Remembered fuel e _ _ (check-closes w.now request.host_key w.breaker)

    get-of_Remembered :
        (fuel : ℕ) (e : FetchExpectations) (w : World) (o : FetchOutcome)
        → Remembered o w
        → get c request fuel e w ≡ some (ok (record o { served_from_cache = true }), w)
    unfolding get Remembered
    get-of_Remembered fuel e w o (closed, found) =
        rw (check-closed w.now request.host_key w.breaker closed) (rw (readable w.now, found) refl)

-- If the time to live is positive and Redis answers, a request that was answered with a validated
-- outcome is, asked again at the same time and with any expectations, answered from the cache with
-- the same outcome: nothing is sent, no token is taken and no key is changed.
pub get-again :
    (c : Client) (request : FetchRequest) (fuel : ℕ) (e : FetchExpectations) (w : World)
    (o : FetchOutcome) (w' : World) (later_fuel : ℕ) (later : FetchExpectations)
    → 1 ≤ c.ttl_seconds
    → ((t : ℕ) → c.cache_writable t ≡ true)
    → ((t : ℕ) → c.cache_readable t ≡ true)
    → get c request fuel e w ≡ some (ok o, w')
    → o.status ≡ status_ok
    → get c request later_fuel later w' ≡ some (ok (record o { served_from_cache = true }), w')
get-again c request fuel e w o w' later_fuel later ttl writable readable got is_ok =
    get-of_Remembered c request ttl writable readable later_fuel later w' o (
      subst (AllRemembered c request) got (get-Remembered c request ttl writable readable fuel e w)
        is_ok)
