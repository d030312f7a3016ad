-- ===== src/Models/Alerts.antt =====
-- mlsc/db/models.py: alert rules, their deliveries and the events they match.
use mlsc.Base.{ℕ, Bool, Option, List, Store}
use mlsc.Fetch.Webhook.{WebhookUnreachable}

pub data ReadAlertKind : Type 0 where
  product scraper : ReadAlertKind

pub data Channel : Type 0 where
  email webhook : Channel

pub data DeliveryState : Type 0 where
  delivery_pending delivered delivery_failed abandoned : DeliveryState

-- What `last_error` says.
pub data DeliveryError : Type 0 where
  unreachable : WebhookUnreachable → DeliveryError
  rule_missing_or_not_a_webhook : DeliveryError

pub record AlertRule : Type 0 where
  pub id : ℕ
  pub monitor_id : ℕ
  pub kind : ReadAlertKind
  -- by key
  pub conditions : Store ℕ
  pub channel : Channel
  pub target : List ℕ
  pub enabled : Bool

pub record Delivery : Type 0 where
  pub id : ℕ
  pub rule_id : ℕ
  pub event_id : ℕ
  pub attempts : ℕ
  pub last_error : Option DeliveryError
  pub state : DeliveryState

pub record TrendEvent : Type 0 where
  pub id : ℕ
  pub monitor_id : ℕ
  pub topic_id : ℕ
  pub detected_on : ℕ
  pub kind : ℕ
