-- ===== src/Alerts/Sender.antt =====
-- The webhook sender, as the one that `deliver_pending` is given: it returns or raises
-- `WebhookUnreachable`.
use mlsc.Base.{
  subst, ℕ, ◌≤◌, ◌≡◌, refl, Option, none, some, is_some, true, leb, ok, err, List, [], ◌∷◌, ◌==◌,
  if◌then◌else◌, arith, Result, length, Bool-cases, inl, inr,
}
use mlsc.Fetch.Contracts.{BreakerOpen, plain, FetchRequest, TransportResponse}
use mlsc.Fetch.Throttle.{token, BucketKeys}
use mlsc.Fetch.Throttle.Waiting.{Sleeps, acquire-returns}
use mlsc.Fetch.Client.{
  Client, World, Sent, response, no_response, other_exception, SendError, transport_raised,
  other_raised, send,
}
use mlsc.Fetch.Webhook.{
  WebhookRaised, WebhookSender, slash, has_double_slash, grow, split_slash, webhook_request, posted,
  webhook_throttled, webhook_checked, send_webhook,
}
use mlsc.Alerts.Rounds.{IsHandled}

-- The sender in `deliver_pending`, whose throttle has fuel for two rounds.
abbrev pub webhook_sender :
    WebhookSender → List ℕ → ℕ × ℕ → World → Option (Result WebhookRaised (Unit {0}) × World)
webhook_sender s url payload w = send_webhook s url payload 2 w

grow-length :
    (c : ℕ) (parts : List (List ℕ)) → 1 ≤ length parts → length (grow c parts) ≡ length parts
grow-length c [] h = absurd (omega arith)
grow-length c (p ∷ parts) h = refl

-- A text with a slash has two parts, and with a double slash three, so that the host is there.
split_slash-parts :
    (url : List ℕ)
    → (1 ≤ length (split_slash url)) × (has_double_slash url ≡ true → 3 ≤ length (split_slash url))
unfolding split_slash
split_slash-parts [] = (omega arith, λ h. absurd cc)
split_slash-parts (c ∷ []) = ground arith
split_slash-parts (c ∷ d ∷ rest) =
    let (after, later) = split_slash-parts rest in
    let (one, three) = split_slash-parts (d ∷ rest) in
    elim (Bool-cases (c == slash)) [
      | inr other ↦ rw (other, grow-length c (split_slash (d ∷ rest)) one) (one, three)
      | inl first ↦ elim (Bool-cases (d == slash)) [
        | inl second ↦ rw (first, second) (omega arith, λ h. omega (arith, after))
        | inr single ↦
            rw (first, single)
              (
                omega arith,
                λ h. omega (
                  arith,
                  subst
                      (λ b.
                        3 ≤ length (if b then [] ∷ split_slash rest else grow d (split_slash rest)))
                      single (three h),
                ),
              )
      ]
    ]

-- The HTTP library raises no error but those that become `TransportFailure`.
abbrev pub IsCaught : Sent → Type 0
IsCaught (other_exception seconds) = ⊥
IsCaught _ = Unit

abbrev pub OnlyCaught : Client → Type 0
OnlyCaught c = (n : ℕ) (request : FetchRequest) → IsCaught (c.transport plain n request)

module _ (s : WebhookSender) (url : List ℕ) (payload : ℕ × ℕ) where
  posted-IsHandled :
      (r : Result SendError TransportResponse) (w : World)
      → (r ≡ err other_raised → ⊥)
      → IsHandled (some (posted s url payload (r, w)))
  posted-IsHandled (err transport_raised) w caught = tt
  posted-IsHandled (err other_raised) w caught = absurd (caught refl)
  posted-IsHandled (ok r) w caught = elim (Bool-cases (leb 400 r.status_code)) [
    | inl h ↦ rw h tt
    | inr h ↦ rw h tt
  ]

  send-caught :
      OnlyCaught s.client
      → (w : World) → (send s.client (webhook_request s url payload) w).0 ≡ err other_raised
      → ⊥
  unfolding send
  send-caught only w = caught (s.client.transport plain w.sends request) refl (only w.sends request)
    where
      request : FetchRequest
      request = webhook_request s url payload

      caught :
          (sent : Sent)
          → s.client.transport plain w.sends (webhook_request s url payload) ≡ sent
          → IsCaught sent
          → (send s.client (webhook_request s url payload) w).0 ≡ err other_raised
          → ⊥
      caught (response r seconds) is_sent fine = rw (send, is_sent) (λ e. cc)
      caught (no_response seconds) is_sent fine = rw (send, is_sent) (λ e. cc)
      caught (other_exception seconds) is_sent fine = absurd fine

module _ (s : WebhookSender) (sleeps : Sleeps s.client.clock)
    (room : token ≤ s.client.host_budget.capacity)
    (rate : 1 ≤ s.client.host_budget.refill_rate_per_second) (only : OnlyCaught s.client) where
  throttled-IsHandled :
      (url : List ℕ) (payload : ℕ × ℕ) (w : World) (o : Option (ℕ × BucketKeys))
      → is_some o ≡ true
      → IsHandled (webhook_throttled s url payload w o)
  throttled-IsHandled url payload w none h = absurd cc
  throttled-IsHandled url payload w (some (now, buckets)) h =
      let w' : World = record w { now = now; buckets = buckets } in
      let (r, after) = send s.client (webhook_request s url payload) w' in
      posted-IsHandled s url payload r after (send-caught s url payload only w')

  checked-IsHandled :
      (url : List ℕ) (payload : ℕ × ℕ) (w : World) (refused : Option BreakerOpen)
      → IsHandled (webhook_checked s url payload 2 w refused)
  checked-IsHandled url payload w (some e) = tt
  checked-IsHandled url payload w none = throttled-IsHandled url payload w _ (
      acquire-returns s.client.clock s.client.host_budget (webhook_request s url payload).host_key
        w.now w.buckets 0 sleeps room rate)

  pub send_webhook-IsHandled :
      (url : List ℕ) (payload : ℕ × ℕ) (w : World) → IsHandled (webhook_sender s url payload w)
  unfolding send_webhook
  send_webhook-IsHandled url payload w = checked-IsHandled url payload _ _
