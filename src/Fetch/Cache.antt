-- ===== src/Fetch/Cache.antt =====
-- mlsc/core/fetch/cache.py: outcomes in Redis by a digest of the request. An entry is its decoded
-- form, with the time at which Redis drops it; `online` tells whether Redis answers the call.
use mlsc.Base.{
  ℕ, ◌+◌, Option, none, some, Bool, true, false, List, ◌∷◌, Store, update, ltb, ◌==◌, if◌then◌else◌,
}
use mlsc.Fetch.Contracts.{FetchRequest, FetchStatus, status_ok, OutcomePayload, FetchOutcome}

-- The dictionary that the cache key is the digest of. A host's key, the headers and the client
-- profile are no part of it.
pub record CacheKey : Type 0 where
  pub url : ℕ
  pub method : ℕ
  pub query : List (ℕ × ℕ)
  pub body : Option (List ℕ)
  pub collection_window : ℕ

-- `request.body.hex() if request.body else None`: an empty body counts as none.
abbrev body_part : Option (List ℕ) → Option (List ℕ)
body_part (some (c ∷ s)) = some (c ∷ s)
body_part _ = none

abbrev pub cache_key : FetchRequest → CacheKey
cache_key request = record {
  url = request.url;
  method = request.method;
  query = request.query;
  body = body_part request.body;
  collection_window = request.collection_window;
}

pub record Entry : Type 0 where
  pub status : FetchStatus
  pub payload : OutcomePayload
  pub library_version : ℕ
  pub duration_seconds : ℕ
  pub expires_at : ℕ

module _ (digest : CacheKey → ℕ) where
  abbrev pub served : Entry → FetchOutcome
  served entry = record {
    status = entry.status;
    payload = entry.payload;
    served_from_cache = true;
    library_version = entry.library_version;
    duration_seconds = entry.duration_seconds;
  }

  -- Redis `GET`: an entry is there until its time is over.
  unfoldable pub lookup :
      (online : Bool) (now : ℕ) → FetchRequest → Store Entry → Option FetchOutcome
  lookup false now request cache = none
  lookup true now request cache = elim (cache (digest (cache_key request))) [
    | none ↦ none
    | some entry ↦ if ltb now entry.expires_at then some (served entry) else none
  ]

  -- Redis `SET … EX ttl`, which Redis refuses for a time to live of zero.
  unfoldable pub store :
      (online : Bool) (ttl_seconds now : ℕ)
      → FetchRequest
      → FetchOutcome
      → Store Entry
      → Store Entry
  store online ttl_seconds now request outcome cache = elim outcome.status [
    | status_ok ↦
        if online
        then if ttl_seconds == 0
          then cache
          else update cache (digest (cache_key request)) (
              some (record {
                status = outcome.status;
                payload = outcome.payload;
                library_version = outcome.library_version;
                duration_seconds = outcome.duration_seconds;
                expires_at = now + ttl_seconds;
              }))
        else cache
    | _ ↦ cache
  ]
