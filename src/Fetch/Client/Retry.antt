-- ===== src/Fetch/Client/Retry.antt =====
-- What the retries of `_send_with_retry` come to.
use mlsc.Base.{ℕ, zero, suc, ◌+◌, ◌≡◌, Option, none, some, arith, Result, ok, err}
use mlsc.Fetch.Contracts.{FetchRequest, TransportResponse}
use mlsc.Fetch.Breaker.Machine.{count, count-record_failure}
use mlsc.Fetch.Client.{
  Client, World, response, no_response, other_exception, SendError, transport_raised, other_raised,
  send, before_retry, send_with_retry,
}

-- How a sequence of sends ends: the result of the last one, with the number of failures counted before
-- and by it.
module _ (c : Client) (request : FetchRequest) where
  abbrev pub first_answer : (tries from : ℕ) → Option (ℕ × Result SendError TransportResponse)
  first_answer zero from = none
  first_answer (suc tries) from =
      let later = first_answer tries (from + 1) in
      elim (c.transport request.client_profile from request) [
        | response r _ ↦ some (0, ok r)
        | other_exception _ ↦ some (0, err other_raised)
        | no_response _ ↦ elim later [ none ↦ none | some (failures, r) ↦ some (failures + 1, r) ]
      ]

abbrev pub found :
    Option (ℕ × Result SendError TransportResponse) → Result SendError TransportResponse
found none = err transport_raised
found (some (_, r)) = r

abbrev pub sends_for : (tries : ℕ) → Option (ℕ × Result SendError TransportResponse) → ℕ
sends_for tries none = tries
sends_for tries (some (failures, _)) = failures + 1

abbrev pub failures_for : (tries : ℕ) → Option (ℕ × Result SendError TransportResponse) → ℕ
failures_for tries none = tries
failures_for tries (some (failures, _)) = failures

-- With `left` retries, the result is the first response or other exception among `left + 1` sends, and
-- the transport's failure if there is none; no send is made after it, and each failed send, and nothing
-- else, is counted against the host.
pub send_with_retry-first_response :
    (c : Client) (request : FetchRequest) (left attempt : ℕ) (w : World)
    → let tried = first_answer c request (suc left) w.sends in
      let (sent, w') = send_with_retry c request left attempt w in
      (sent ≡ found tried)
      × (w'.sends ≡ w.sends + sends_for (suc left) tried)
      × (count (w'.breaker.failures request.host_key)
          ≡ count (w.breaker.failures request.host_key) + failures_for (suc left) tried)
unfolding send_with_retry send
send_with_retry-first_response c request zero attempt w =
    let w' = (send c request w).1 in
    ground (arith, count-record_failure c.breaker w'.now request.host_key w.breaker)
send_with_retry-first_response c request (suc left) attempt w =
    let w' = (send c request w).1 in
    ground (
      arith,
      count-record_failure c.breaker w'.now request.host_key w.breaker,
      send_with_retry-first_response c request left (attempt + 1)
          (before_retry c request attempt w'),
    )
