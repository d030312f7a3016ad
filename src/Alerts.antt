-- ===== src/Alerts.antt =====
-- mlsc/tasks/alerts.py: `evaluate_alerts` and `deliver_pending`, with the queries and updates of
-- mlsc/repositories/alert_rules.py. The sender is a parameter: it returns, raises, or does not
-- return. The identifiers of new rows are arguments.
pub mod Rounds
pub mod Sender
pub mod Matching
mod Tests
use mlsc.Base.{
  ℕ, zero, suc, ◌+◌, Option, none, some, Bool, true, false, ◌&&◌, List, [], ◌∷◌, ◌++◌, ◌==◌, leb,
  Result, ok, err, if◌then◌else◌, filter, length, Store,
}
use mlsc.Fetch.Webhook.{WebhookUnreachable, WebhookRaised, unreachable_raised, passed_through}
use mlsc.Models.Alerts.{
  ReadAlertKind, product, Channel, webhook, DeliveryState, delivery_pending, delivered,
  delivery_failed, abandoned, DeliveryError, unreachable, rule_missing_or_not_a_webhook, AlertRule,
  Delivery, TrendEvent,
}

abbrev pub max_attempts : ℕ
max_attempts = 3

-- The key "event_kind" of a rule's conditions.
abbrev pub event_kind : ℕ
event_kind = 0

pub record AlertWorld : Type 0 where
  pub rules : List AlertRule
  pub events : List TrendEvent
  pub deliveries : List Delivery

abbrev pub is_product : ReadAlertKind → Bool
is_product product = true
is_product _ = false

abbrev pub is_webhook : Channel → Bool
is_webhook webhook = true
is_webhook _ = false

-- `AlertRuleRepository.enabled_for`, for product rules.
unfoldable pub enabled_for : (monitor_id : ℕ) → List AlertRule → List AlertRule
enabled_for monitor_id rules =
    filter (λ r. (r.monitor_id == monitor_id) && (is_product r.kind && r.enabled)) rules

-- `TrendEventRepository.events_for_bucket`
unfoldable pub events_for_bucket : (monitor_id bucket : ℕ) → List TrendEvent → List TrendEvent
events_for_bucket monitor_id bucket events =
    filter (λ e. (e.monitor_id == monitor_id) && (e.detected_on == bucket)) events

abbrev pub passes : Option ℕ → TrendEvent → Bool
passes none e = true
passes (some kind) e = e.kind == kind

-- `DeliveryRepository.create`
abbrev pub new_delivery : (id rule_id event_id : ℕ) → Delivery
new_delivery id rule_id event_id = record {
  id = id;
  rule_id = rule_id;
  event_id = event_id;
  attempts = 0;
  last_error = none;
  state = delivery_pending;
}

-- The rows for the matches of one rule; the row for the n-th match of all gets the identifier `ids n`.
unfoldable pub create_each : (ids : ℕ → ℕ) (n : ℕ) (rule_id : ℕ) → List TrendEvent → List Delivery
create_each ids n rule_id [] = []
create_each ids n rule_id (e ∷ rest) =
    new_delivery (ids n) rule_id e.id ∷ create_each ids (suc n) rule_id rest

-- `_match_and_create`: the events that match, each of which gets a delivery.
unfoldable pub matching : AlertRule → List TrendEvent → List TrendEvent
matching rule events = filter (passes (rule.conditions event_kind)) events

-- The loop over the rules, with the number of deliveries created so far.
unfoldable pub create_all :
    (ids : ℕ → ℕ) → List TrendEvent → List AlertRule → (created : ℕ) → ℕ × List Delivery
create_all ids events [] created = (created, [])
create_all ids events (rule ∷ rules) created =
    let matches = matching rule events in
    let (total, later) = create_all ids events rules (created + length matches) in
    (total, create_each ids created rule.id matches ++ later)

-- `evaluate_alerts`
unfoldable pub evaluate_alerts : (ids : ℕ → ℕ) (monitor_id bucket : ℕ) → AlertWorld → ℕ × AlertWorld
evaluate_alerts ids monitor_id bucket w =
    let (created, new) =
      create_all ids (events_for_bucket monitor_id bucket w.events) (enabled_for monitor_id w.rules)
        0 in
    (created, record w { deliveries = w.deliveries ++ new })

-- `session.get(AlertRule, …)`
abbrev pub find_rule : ℕ → List AlertRule → Option AlertRule
find_rule id [] = none
find_rule id (r ∷ rest) = let later = find_rule id rest in if r.id == id then some r else later

-- The states that `DeliveryRepository.pending` selects.
abbrev pub is_due : DeliveryState → Bool
is_due delivery_pending = true
is_due delivery_failed = true
is_due _ = false

-- `DeliveryRepository.mark`
abbrev pub mark : DeliveryState → Option DeliveryError → Delivery → Delivery
mark state error d = record d { attempts = d.attempts + 1; state = state; last_error = error }

-- Where a failed send leaves a delivery.
abbrev pub after_failed_send : WebhookUnreachable → Delivery → Delivery
after_failed_send e d =
    mark (if leb max_attempts (d.attempts + 1) then abandoned else delivery_failed)
      (some (unreachable e)) d

-- How a call ends that has a state: the sender's fuel is spent, an exception other than
-- `WebhookUnreachable` passes through, or it returns.
pub data Ended (A S : Type 0) : Type 0 where
  fuel_spent : Ended A S
  raised : S → Ended A S
  returned : A → S → Ended A S

module _ {S : Type 0} where
  -- With the number of deliveries made: 1 or 0.
  abbrev pub after_send :
      Delivery → Option (Result WebhookRaised (Unit {0}) × S) → Ended (ℕ × Delivery) S
  after_send d none = fuel_spent
  after_send d (some (ok sent, s)) = returned (1, mark delivered none d) s
  after_send d (some (err (unreachable_raised e), s)) = returned (0, after_failed_send e d) s
  after_send d (some (err passed_through, s)) = raised s

  -- The row and those after it.
  abbrev pub with_rest :
      Ended (ℕ × Delivery) S → (S → Ended (ℕ × List Delivery) S) → Ended (ℕ × List Delivery) S
  with_rest fuel_spent later = fuel_spent
  with_rest (raised s) later = raised s
  with_rest (returned (n, d) s) later = elim (later s) [
    | fuel_spent ↦ fuel_spent
    | raised s' ↦ raised s'
    | returned (total, rest) s' ↦ returned (n + total, d ∷ rest) s'
  ]

  -- The session is committed after the loop, so that the rows are as before where it raises.
  abbrev pub committed :
      List Delivery → Ended (ℕ × List Delivery) S → Option (Result (Unit {0}) ℕ × List Delivery × S)
  committed deliveries fuel_spent = none
  committed deliveries (raised s) = some (err tt, deliveries, s)
  committed deliveries (returned (total, rows) s) = some (ok total, rows, s)

module _ {S : Type 0}
    (send : List ℕ → ℕ × ℕ → S → Option (Result WebhookRaised (Unit {0}) × S)) where
  abbrev pub attempted : Delivery → Option AlertRule → S → Ended (ℕ × Delivery) S
  attempted d none s = returned (0, mark abandoned (some rule_missing_or_not_a_webhook) d) s
  attempted d (some rule) s =
      if is_webhook rule.channel
      then (after_send d (send rule.target (rule.id, d.event_id) s))
      else returned (0, mark abandoned (some rule_missing_or_not_a_webhook) d) s

  -- One row of the loop: a row that is not due is not selected.
  unfoldable pub deliver_one : List AlertRule → Delivery → S → Ended (ℕ × Delivery) S
  deliver_one rules d s =
      if is_due d.state then (attempted d (find_rule d.rule_id rules) s) else returned (0, d) s

  unfoldable pub deliver_each : List AlertRule → List Delivery → S → Ended (ℕ × List Delivery) S
  deliver_each rules [] s = returned (0, []) s
  deliver_each rules (d ∷ rest) s = with_rest (deliver_one rules d s) (deliver_each rules rest)

  -- `deliver_pending`: the number delivered, the rows afterwards, and the sender's state.
  unfoldable pub deliver_pending :
      List AlertRule → List Delivery → S → Option (Result (Unit {0}) ℕ × List Delivery × S)
  deliver_pending rules deliveries s = committed deliveries (deliver_each rules deliveries s)

  -- So many runs of the task, one after the other, whether they raise or not.
  unfoldable pub deliver_rounds :
      (rounds : ℕ) → List AlertRule → List Delivery → S → Option (List Delivery × S)
  deliver_rounds zero rules deliveries s = some (deliveries, s)
  deliver_rounds (suc rounds) rules deliveries s = elim (deliver_pending rules deliveries s) [
    | none ↦ none
    | some (result, deliveries', s') ↦ deliver_rounds rounds rules deliveries' s'
  ]
