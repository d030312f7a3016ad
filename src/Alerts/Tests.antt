-- ===== src/Alerts/Tests.antt =====
-- Deliveries of one monitor's alerts.
use mlsc.Base.{
  ℕ, zero, suc, ◌+◌, ◌≡◌, refl, none, some, true, false, List, [], ◌∷◌, ◌++◌, length, update,
}
use mlsc.Fetch.Validate.{not_json}
use mlsc.Fetch.Client.{World, Sent, response, no_response}
use mlsc.Fetch.Webhook.{WebhookSender, host_of, split_slash}
use mlsc.Models.Alerts.{product, webhook, email, delivery_failed, delivered, AlertRule, TrendEvent}
use mlsc.Alerts.{AlertWorld, event_kind, evaluate_alerts, new_delivery}
use mlsc.Alerts.Matching.{due_pairs, pairs, evaluate_alerts-pairs}

-- "h://a/b"
abbrev target : List ℕ
target = 104 ∷ 58 ∷ 47 ∷ 47 ∷ 97 ∷ 47 ∷ 98 ∷ []

host_of-target : host_of target ≡ 97 ∷ []
unfolding host_of split_slash
host_of-target = refl

abbrev rule : AlertRule
rule = record {
  id = 1;
  monitor_id = 5;
  kind = product;
  conditions = update (λ _. none) event_kind (some 2);
  channel = webhook;
  target = target;
  enabled = true;
}

abbrev event : ℕ → TrendEvent
event id = record { id = id; monitor_id = 5; topic_id = 8; detected_on = 30; kind = id }

-- The second event is of the kind that the rule asks for; a delivery of the day before failed once.
abbrev world : AlertWorld
world = record {
  rules = rule ∷ record rule { id = 2; channel = email; enabled = false } ∷ [];
  events = event 1 ∷ event 2 ∷ [];
  deliveries =
      record (new_delivery 40 1 9) { attempts = 1; state = delivery_failed }
      ∷ record (new_delivery 41 1 8) { attempts = 3; state = delivered }
      ∷ [];
}

abbrev sender : WebhookSender
sender = record {
  client = record {
    breaker = record { failure_threshold = 2; cooldown_seconds = 60 };
    host_budget = record {
      capacity = 2000;
      refill_rate_per_second = 500;
      jitter_low_seconds = 0;
      jitter_high_seconds = 0;
    };
    ttl_seconds = 60;
    max_transport_retries = 1;
    retry_backoff_seconds = 1;
    clock = record { sleep = λ now seconds. now + seconds; uniform = λ low high. low };
    digest = λ key. key.url;
    decoders = record { loads = λ _. not_json; loads_str = λ _. not_json; decode = λ _. "" };
    transport = λ profile n request. reply n;
    cache_readable = λ _. true;
    cache_writable = λ _. true;
  };
  text_key = length;
  dumps = λ payload. [];
  post = 0;
  json_header = (0, 0);
}
  where
    reply : ℕ → Sent
    reply zero = no_response 2
    reply (suc n) =
        response (record { status_code = 503; content_type = []; body = []; library_version = 1 }) 3

abbrev network : World
network = record {
  breaker = record { failures = λ _. none; opened_until = λ _. none };
  buckets = record { tokens = λ _. none; updated_at = λ _. none };
  cache = λ _. none;
  now = 100;
  sends = 0;
}

evaluate_alerts-pairs_example :
    let due = due_pairs 5 30 world.rules world.events in
    let (created, w') = evaluate_alerts (λ n. 50 + n) 5 30 world in
    let (again, w'') = evaluate_alerts (λ n. 60 + n) 5 30 w' in
    (created ≡ length due)
    × (pairs w'.deliveries ≡ pairs world.deliveries ++ due)
    × (again ≡ length due)
    × (pairs w''.deliveries ≡ (pairs world.deliveries ++ due) ++ due)
evaluate_alerts-pairs_example = evaluate_alerts-pairs (λ n. 50 + n) (λ n. 60 + n) 5 30 world

one_due : due_pairs 5 30 world.rules world.events ≡ (1, 2) ∷ []
one_due = refl
