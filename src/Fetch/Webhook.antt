-- ===== src/Fetch/Webhook.antt =====
-- mlsc/core/fetch/webhook.py: `WebhookSender.send`, over the breaker, the throttle and the plain
-- transport. A target is the list of its character codes, and a number where it is only passed on.
use mlsc.Base.{
  ℕ, Option, none, some, Bool, false, ◌&&◌, ◌||◌, List, [], ◌∷◌, ◌==◌, leb, Result, ok, err,
  if◌then◌else◌,
}
use mlsc.Fetch.Contracts.{BreakerOpen, plain, FetchRequest, TransportResponse}
use mlsc.Fetch.Breaker
use mlsc.Fetch.Throttle
use mlsc.Fetch.Throttle.{BucketKeys}
use mlsc.Fetch.Client.{
  SendError, transport_raised, other_raised, Client, World, after_success, after_failure, send,
}

-- The exception, by what its text says.
pub data WebhookUnreachable : Type 0 where
  refused_by_breaker : BreakerOpen → WebhookUnreachable
  no_transport : (host_key : ℕ) → WebhookUnreachable
  bad_status : (url status_code : ℕ) → WebhookUnreachable

-- What `send` raises: that exception, or one of the transport that it does not catch.
pub data WebhookRaised : Type 0 where
  unreachable_raised : WebhookUnreachable → WebhookRaised
  passed_through : WebhookRaised

-- The sender: the shared client's parts, the numbers that stand for texts, and `json.dumps` with its
-- encoding.
pub record WebhookSender : Type 0 where
  pub client : Client
  pub text_key : List ℕ → ℕ
  pub dumps : ℕ × ℕ → List ℕ
  pub post : ℕ
  pub json_header : ℕ × ℕ

abbrev pub slash : ℕ
slash = 47

-- `"//" in url`
abbrev pub has_double_slash : List ℕ → Bool
has_double_slash [] = false
has_double_slash (c ∷ []) = false
has_double_slash (c ∷ d ∷ rest) = ((c == slash) && (d == slash)) || has_double_slash (d ∷ rest)

abbrev pub grow : ℕ → List (List ℕ) → List (List ℕ)
grow c [] = (c ∷ []) ∷ []
grow c (part ∷ parts) = (c ∷ part) ∷ parts

-- `url.split("/")`
unfoldable pub split_slash : List ℕ → List (List ℕ)
split_slash [] = [] ∷ []
split_slash (c ∷ cs) = let rest = split_slash cs in if c == slash then [] ∷ rest else grow c rest

-- The third part, which is there if the text has a double slash.
abbrev pub third : List (List ℕ) → List ℕ
third (a ∷ b ∷ c ∷ rest) = c
third _ = []

unfoldable pub host_of : List ℕ → List ℕ
host_of url = if has_double_slash url then third (split_slash url) else url

module _ (s : WebhookSender) (url : List ℕ) (payload : ℕ × ℕ) where
  abbrev pub webhook_request : FetchRequest
  webhook_request = record {
    url = s.text_key url;
    host_key = s.text_key (host_of url);
    client_profile = plain;
    method = s.post;
    query = [];
    headers = s.json_header ∷ [];
    body = some (s.dumps payload);
    collection_window = 0;
  }

  -- What the transport's answer comes to.
  abbrev pub posted :
      Result SendError TransportResponse × World → Result WebhookRaised (Unit {0}) × World
  posted (err transport_raised, w) = (
    err (unreachable_raised (no_transport webhook_request.host_key)),
    after_failure s.client webhook_request w,
  )
  posted (err other_raised, w) = (err passed_through, w)
  posted (ok r, w) =
      if leb 400 r.status_code
      then (
        err (unreachable_raised (bad_status webhook_request.url r.status_code)),
        after_failure s.client webhook_request w,
      )
      else (ok tt, after_success s.client webhook_request w)

  abbrev pub webhook_throttled :
      World → Option (ℕ × BucketKeys) → Option (Result WebhookRaised (Unit {0}) × World)
  webhook_throttled w none = none
  webhook_throttled w (some (now, buckets)) =
      some (posted (send s.client webhook_request (record w { now = now; buckets = buckets })))

  abbrev pub webhook_checked :
      (fuel : ℕ) → World → Option BreakerOpen → Option (Result WebhookRaised (Unit {0}) × World)
  webhook_checked fuel w (some e) = some (err (unreachable_raised (refused_by_breaker e)), w)
  webhook_checked fuel w none = webhook_throttled w (
      Throttle.acquire s.client.clock s.client.host_budget webhook_request.host_key fuel w.now
        w.buckets)

  -- `WebhookSender.send`. Nothing is returned where the throttle's fuel is spent.
  unfoldable pub send_webhook :
      (fuel : ℕ) → World → Option (Result WebhookRaised (Unit {0}) × World)
  send_webhook fuel w =
      let (refused, breaker) = Breaker.check w.now webhook_request.host_key w.breaker in
      webhook_checked fuel (record w { breaker = breaker }) refused
