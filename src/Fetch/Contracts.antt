-- ===== src/Fetch/Contracts.antt =====
-- mlsc/core/fetch/contracts.py and the response of transports.py: requests, expectations, outcomes
-- and the named failures. Hosts, URLs and header texts that the code only passes on or compares are
-- numbers; a content type is the list of its ASCII codes.
use Prim.Native.String.{String}
use mlsc.Base.{ℕ, Bool, Option, List}
use mlsc.Base.Int.{ℤ}
use mlsc.Fetch.Json.{Json}

pub data ClientProfile : Type 0 where
  plain impersonating : ClientProfile

pub data FetchStatus : Type 0 where
  status_ok validation_failed transport_failed skipped_breaker_open : FetchStatus

-- A step of `item_path`.
pub data Key : Type 0 where
  index : ℤ → Key
  name : String → Key

pub data BodyFormat : Type 0 where
  json google_batchexecute raw : BodyFormat

pub record FetchExpectations : Type 0 where
  -- a single string, or a tuple of them
  pub content_type : List (List ℕ)
  pub item_path : List Key
  pub required_fields : List String
  pub min_rows_when_healthy : ℕ
  pub body_format : BodyFormat
  pub count_path : Option (List Key)

pub record FetchRequest : Type 0 where
  pub url : ℕ
  pub host_key : ℕ
  pub client_profile : ClientProfile
  pub method : ℕ
  pub query : List (ℕ × ℕ)
  pub headers : List (ℕ × ℕ)
  pub body : Option (List ℕ)
  pub collection_window : ℕ

-- What a missing part of the response is called in `MissingRequiredFields`.
pub data Missing : Type 0 where
  unparseable_body unparseable_envelope root : Missing
  key : Key → Missing

-- The subclasses of `FetchGuardrailError` that validation raises.
pub data ValidationError : Type 0 where
  unexpected_content_type : (expected : List (List ℕ)) (actual : List ℕ) → ValidationError
  missing_required_fields : List Missing → ValidationError
  illegitimately_empty : (min_rows_when_healthy : ℕ) → ValidationError

pub record TransportResponse : Type 0 where
  pub status_code : ℕ
  pub content_type : List ℕ
  pub body : List ℕ
  pub library_version : ℕ

-- The exception `BreakerOpen`.
pub record BreakerOpen : Type 0 where
  pub host_key : ℕ
  pub opened_until : ℕ

-- What validation returns: the item list, or the body as text.
pub data Payload : Type 0 where
  rows : List Json → Payload
  body_text : String → Payload

-- The named failures that an outcome can carry.
pub data Failure : Type 0 where
  breaker_open : BreakerOpen → Failure
  transport_failure : (host_key : ℕ) → Failure
  validation : ValidationError → Failure

pub data OutcomePayload : Type 0 where
  validated : Payload → OutcomePayload
  failed : Failure → OutcomePayload

pub record FetchOutcome : Type 0 where
  pub status : FetchStatus
  pub payload : OutcomePayload
  pub served_from_cache : Bool
  pub library_version : ℕ
  pub duration_seconds : ℕ
