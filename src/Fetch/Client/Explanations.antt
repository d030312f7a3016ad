-- ===== src/Fetch/Client/Explanations.antt =====
-- What explains an outcome of `get`, and what may be cached.
use mlsc.Base.{if◌then◌else◌, ℕ, ◌≡◌, Option, none, some, Result, ok, err, Store}
use mlsc.Fetch.Contracts.{
  FetchStatus, status_ok, validation_failed, transport_failed, skipped_breaker_open,
  FetchExpectations, FetchRequest, TransportResponse, Payload, breaker_open, transport_failure,
  validation, OutcomePayload, validated, failed, FetchOutcome,
}
use mlsc.Fetch.Cache
use mlsc.Fetch.Cache.{Entry}
use mlsc.Fetch.Validate.{Raised, guardrail, validate}
use mlsc.Fetch.Client.{Client, World, response}

-- Validation of a response that a transport gave for a request ended so.
abbrev pub Judged : Client → FetchRequest → FetchExpectations → Result Raised Payload → Type 0
Judged c request e v =
    (n : ℕ) × (seconds : ℕ) × (r : TransportResponse) × (c.transport request.client_profile n
        request
      ≡ response r seconds)
    × (validate c.decoders r.content_type r.body e ≡ v)

-- A status and the payload that explains it, for an outcome that was not cached.
abbrev pub Explains :
    Client → FetchRequest → FetchExpectations → FetchStatus → OutcomePayload → Type 0
Explains c request e status_ok (validated items) = Judged c request e (ok items)
Explains c request e validation_failed (failed (validation f)) =
    Judged c request e (err (guardrail f))
Explains c request e transport_failed (failed (transport_failure host_key)) =
    host_key ≡ request.host_key
Explains c request e skipped_breaker_open (failed (breaker_open b)) = b.host_key ≡ request.host_key
Explains _ _ _ _ _ = ⊥

-- What is cached under a digest was validated, for a request with that digest.
abbrev pub IsCached : Client → (digest : ℕ) → FetchStatus → OutcomePayload → Type 0
IsCached c digest status_ok (validated items) =
    (request : FetchRequest) × (e : FetchExpectations) × (c.digest (Cache.cache_key request)
      ≡ digest)
    × Judged c request e (ok items)
IsCached _ _ _ _ = ⊥

abbrev pub EntryIsValid : Client → (digest : ℕ) → Option Entry → Type 0
EntryIsValid c digest none = Unit
EntryIsValid c digest (some entry) = IsCached c digest entry.status entry.payload

abbrev pub CacheIsValid : Client → Store Entry → Type 0
CacheIsValid c cache = (k : ℕ) → EntryIsValid c k (cache k)

-- A returned outcome is explained, and the cache stays valid.
abbrev pub OutcomeIsExplained : Client → FetchRequest → FetchExpectations → FetchOutcome → Type 0
OutcomeIsExplained c request e o =
    if o.served_from_cache
    then IsCached c (c.digest (Cache.cache_key request)) o.status o.payload
    else Explains c request e o.status o.payload

abbrev pub Explained :
    Client → FetchRequest → FetchExpectations → Result (Unit {0}) FetchOutcome × World → Type 0
Explained c request e (ok o, w) = OutcomeIsExplained c request e o × CacheIsValid c w.cache
Explained c request e (err _, w) = CacheIsValid c w.cache

abbrev pub AllExplained :
    Client
    → FetchRequest
    → FetchExpectations
    → Option (Result (Unit {0}) FetchOutcome × World)
    → Type 0
AllExplained c request e none = Unit
AllExplained c request e (some r) = Explained c request e r
