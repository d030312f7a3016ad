-- ===== src/Fetch/Tests.antt =====
-- The client and its parts at work on one host.
use mlsc.Base.{
  err, ℕ, zero, suc, ◌+◌, ◌*◌, ◌≤◌, ◌≡◌, refl, Option, none, some, is_some, true, false, List, [],
  ◌∷◌, Result, ok, arith,
}
use mlsc.Fetch.Contracts.{
  json, plain, raw, status_ok, FetchExpectations, FetchRequest, FetchOutcome, validated, body_text,
}
use mlsc.Fetch.Breaker.{BreakerSettings, check}
use mlsc.Fetch.Breaker.Machine.{
  Event, failed, checked, no_keys, run, closed, run_machine, verdict, count, check-refines_machine,
}
use mlsc.Fetch.Cache.{lookup}
use mlsc.Fetch.Throttle.{take_token, token, HostBudget, BucketKeys, Environment, acquire}
use mlsc.Fetch.Throttle.Waiting.{acquire-returns, acquire-starves}
use mlsc.Fetch.Throttle.Rate.{granted, elapsed, granted-le}
use mlsc.Fetch.Validate.{undecodable, decode_body, validate, media_type, not_json}
use mlsc.Fetch.Client.{
  fetch_live, send, Client, World, Sent, response, no_response, send_with_retry, get,
}
use mlsc.Fetch.Client.Retry.{
  first_answer, found, sends_for, failures_for, send_with_retry-first_response,
}
use mlsc.Fetch.Client.Paths.{get-again}

abbrev settings : BreakerSettings
settings = record { failure_threshold = 2; cooldown_seconds = 60 }

abbrev budget : HostBudget
budget = record {
  capacity = 2000;
  refill_rate_per_second = 500;
  jitter_low_seconds = 0;
  jitter_high_seconds = 0;
}

abbrev small_budget : HostBudget
small_budget = record {
  capacity = 500;
  refill_rate_per_second = 500;
  jitter_low_seconds = 0;
  jitter_high_seconds = 0;
}

abbrev no_buckets : BucketKeys
no_buckets = record { tokens = λ _. none; updated_at = λ _. none }

abbrev environment : Environment
environment = record { sleep = λ now seconds. now + seconds; uniform = λ low high. low }

abbrev media : List ℕ
media = 116 ∷ 47 ∷ 120 ∷ []

abbrev client : Client
client = record {
  breaker = settings;
  host_budget = budget;
  ttl_seconds = 60;
  max_transport_retries = 1;
  retry_backoff_seconds = 1;
  clock = environment;
  digest = λ key. key.url;
  decoders = record { loads = λ _. not_json; loads_str = λ _. not_json; decode = λ _. "page" };
  transport = λ profile n request. reply n;
  cache_readable = λ _. true;
  cache_writable = λ _. true;
}
  where
    reply : ℕ → Sent
    reply zero = no_response 2
    reply (suc n) =
        response
          (record { status_code = 200; content_type = media; body = 120 ∷ []; library_version = 1 })
          3

abbrev request : FetchRequest
request = record {
  url = 5;
  host_key = 9;
  client_profile = plain;
  method = 0;
  query = [];
  headers = [];
  body = none;
  collection_window = 3;
}

abbrev expectations : FetchExpectations
expectations = record {
  content_type = media ∷ [];
  item_path = [];
  required_fields = [];
  min_rows_when_healthy = 1;
  body_format = raw;
  count_path = none;
}

abbrev world : World
world = record { breaker = no_keys; buckets = no_buckets; cache = λ _. none; now = 100; sends = 0 }

-- Two failures, a check during the cooldown, and a failure of another host.
abbrev events : List Event
events = failed 10 9 ∷ failed 11 3 ∷ failed 12 9 ∷ checked 20 9 ∷ []

check-refines_machine_example :
    (check 30 9 (run settings events no_keys)).0
    ≡ verdict 30 9 (run_machine settings 9 events (closed 0))
check-refines_machine_example = check-refines_machine settings 30 9 events (omega arith)

acquire-returns_example : is_some (acquire environment budget 9 2 100 no_buckets) ≡ true
acquire-returns_example =
    acquire-returns environment budget 9 100 no_buckets 0 (λ now seconds. omega arith) (omega arith)
      (omega arith)

acquire-starves_example : acquire environment small_budget 9 50 100 no_buckets ≡ none
acquire-starves_example =
    acquire-starves environment small_budget 9 100 no_buckets 50 (omega arith) (omega arith)

granted-le_example :
    granted budget 9 100 (1 ∷ 0 ∷ 2 ∷ []) no_buckets * token ≤ 2000 + elapsed (1 ∷ 0 ∷ 2 ∷ []) * 500
granted-le_example = granted-le budget 9 100 (1 ∷ 0 ∷ 2 ∷ []) no_buckets (omega arith)

send_with_retry-first_response_example :
    let tried = first_answer client request 2 0 in
    let (sent, w') = send_with_retry client request 1 0 world in
    (sent ≡ found tried)
    × (w'.sends ≡ 0 + sends_for 2 tried)
    × (count (w'.breaker.failures 9) ≡ 0 + failures_for 2 tried)
send_with_retry-first_response_example = send_with_retry-first_response client request 1 0 world

abbrev fetched : FetchOutcome
fetched = record {
  status = status_ok;
  payload = validated (body_text "page");
  served_from_cache = false;
  library_version = 1;
  duration_seconds = 6;
}

abbrev outcome_of : Option (Result (Unit {0}) FetchOutcome × World) → World
outcome_of none = world
outcome_of (some (result, w)) = w

fetched_first :
    get client request 2 expectations world
    ≡ some (ok fetched, outcome_of (get client request 2 expectations world))
unfolding get check lookup acquire take_token fetch_live send_with_retry send validate media_type
fetched_first = refl

get-again_example :
    let w' = outcome_of (get client request 2 expectations world) in
    get client request 2 expectations w'
    ≡ some (ok (record fetched { served_from_cache = true }), w')
get-again_example =
    get-again client request 2 expectations world fetched
      (outcome_of (get client request 2 expectations world)) 2 expectations (omega arith)
      (λ t. refl) (λ t. refl) fetched_first refl

-- The same client over a parser that raises a decoding error.
abbrev strict_client : Client
strict_client = record client {
  decoders = record { loads = λ _. undecodable; loads_str = λ _. not_json; decode = λ _. "" };
}

abbrev json_expectations : FetchExpectations
json_expectations = record expectations { body_format = json }

raised_to_caller : (fetch_live strict_client request json_expectations world).0 ≡ err tt
unfolding fetch_live send_with_retry send validate media_type decode_body
raised_to_caller = refl
