-- ===== src/Fetch/Client/Outcomes.antt =====
-- What `get` returns, on every path.
use mlsc.Base.{ℕ, ◌≡◌, Option, none, some, Result, ok, err}
use mlsc.Fetch.Contracts.{
  BreakerOpen, FetchExpectations, FetchRequest, TransportResponse, FetchOutcome,
}
use mlsc.Fetch.Cache
use mlsc.Fetch.Client.{Client, response, SendError}
use mlsc.Fetch.Client.Explanations.{OutcomeIsExplained}

module _ (c : Client) (request : FetchRequest) where
  -- A response is what the transport gave.
  abbrev IsAnswer : Result SendError TransportResponse → Type 0
  IsAnswer (ok r) =
      (n : ℕ) × (seconds : ℕ) × (c.transport request.client_profile n request ≡ response r seconds)
  IsAnswer (err e) = Unit

  abbrev ServedFits : FetchExpectations → Option FetchOutcome → Type 0
  ServedFits e none = Unit
  ServedFits e (some o) = OutcomeIsExplained c request e o

  abbrev RefusedFits : Option BreakerOpen → Type 0
  RefusedFits none = Unit
  RefusedFits (some b) = b.host_key ≡ request.host_key
