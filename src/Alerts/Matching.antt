-- ===== src/Alerts/Matching.antt =====
-- `evaluate_alerts`: which deliveries it creates, and what a second evaluation does.
use mlsc.Base.{
  ℕ, suc, ◌+◌, ◌≡◌, ◌∙◌, refl, ap, Bool, true, false, ◌&&◌, List, [], ◌∷◌, ◌++◌, ◌==◌, arith,
  Bool-cases, inl, inr, filter, map, length, length-append, length-map, filter-same, filter-filter,
}
use mlsc.Models.Alerts.{AlertRule, Delivery, TrendEvent}
use mlsc.Alerts.{
  event_kind, AlertWorld, is_product, enabled_for, events_for_bucket, passes, create_each, matching,
  create_all, evaluate_alerts,
}

-- Whether an event is one of the monitor's, of the day, and one that an enabled product rule of the
-- monitor asks for.
abbrev pub asks_for : (monitor_id bucket : ℕ) → AlertRule → TrendEvent → Bool
asks_for monitor_id bucket r e =
    ((r.monitor_id == monitor_id) && (is_product r.kind && r.enabled))
    && (((e.monitor_id == monitor_id) && (e.detected_on == bucket))
        && passes (r.conditions event_kind) e)

-- The pairs of a rule and an event that a notification is due for.
abbrev pub due_pairs : (monitor_id bucket : ℕ) → List AlertRule → List TrendEvent → List (ℕ × ℕ)
due_pairs monitor_id bucket [] events = []
due_pairs monitor_id bucket (r ∷ rules) events =
    map {B = ℕ × ℕ} (λ e. (r.id, e.id)) (filter (asks_for monitor_id bucket r) events)
    ++ due_pairs monitor_id bucket rules events

abbrev pub pairs : List Delivery → List (ℕ × ℕ)
pairs deliveries = map {B = ℕ × ℕ} (λ d. (d.rule_id, d.event_id)) deliveries

pairs-append : (xs ys : List Delivery) → pairs (xs ++ ys) ≡ pairs xs ++ pairs ys
pairs-append [] ys = refl
pairs-append (x ∷ xs) ys = ap (λ r. (x.rule_id, x.event_id) ∷ r) (pairs-append xs ys)

create_each-pairs :
    (ids : ℕ → ℕ) (n rule_id : ℕ) (events : List TrendEvent)
    → pairs (create_each ids n rule_id events) ≡ map (λ e. (rule_id, e.id)) events
unfolding create_each
create_each-pairs ids n rule_id [] = refl
create_each-pairs ids n rule_id (e ∷ rest) =
    ap (λ r. (rule_id, e.id) ∷ r) (create_each-pairs ids (suc n) rule_id rest)

module _ (monitor_id bucket : ℕ) where
  -- The three tests are one.
  matching-asks_for :
      (r : AlertRule) (events : List TrendEvent)
      → ((r.monitor_id == monitor_id) && (is_product r.kind && r.enabled)) ≡ true
      → matching r (events_for_bucket monitor_id bucket events)
        ≡ filter (asks_for monitor_id bucket r) events
  unfolding matching events_for_bucket
  matching-asks_for r events on =
      filter-filter (passes (r.conditions event_kind))
        (λ e. (e.monitor_id == monitor_id) && (e.detected_on == bucket)) events
      ∙ filter-same _ (asks_for monitor_id bucket r) events (λ e. rw on refl)

  no-match :
      (r : AlertRule) (events : List TrendEvent)
      → ((r.monitor_id == monitor_id) && (is_product r.kind && r.enabled)) ≡ false
      → filter (asks_for monitor_id bucket r) events ≡ []
  no-match r [] off = refl
  no-match r (e ∷ rest) off = rw off (no-match r rest off)

  create_all-pairs :
      (ids : ℕ → ℕ) (events : List TrendEvent) (rules : List AlertRule) (n : ℕ)
      → let (created, new) =
          create_all ids
            (events_for_bucket monitor_id bucket events)
            (enabled_for monitor_id rules)
            n in
        (pairs new ≡ due_pairs monitor_id bucket rules events)
        × (created ≡ n + length (due_pairs monitor_id bucket rules events))
  unfolding create_all enabled_for
  create_all-pairs ids events [] n = (refl, omega arith)
  create_all-pairs ids events (r ∷ rules) n =
      elim (Bool-cases ((r.monitor_id == monitor_id) && (is_product r.kind && r.enabled))) [
        | inr off ↦ rw (off, no-match r events off) (create_all-pairs ids events rules n)
        | inl on ↦
            let asked = filter (asks_for monitor_id bucket r) events in
            let (later, total) = create_all-pairs ids events rules (n + length asked) in
            rw (on, create_all, matching-asks_for r events on)
              (
                pairs-append (create_each ids n r.id asked) _
                    ∙ rw (create_each-pairs ids n r.id asked, later) refl,
                omega (
                  arith,
                  total,
                  length-append (map {B = ℕ × ℕ} (λ e. (r.id, e.id)) asked)
                      (due_pairs monitor_id bucket rules events),
                  length-map {B = ℕ × ℕ} (λ e. (r.id, e.id)) asked,
                ),
              )
      ]

-- An evaluation returns the number of the due pairs and adds one delivery for each, in their order,
-- after those that are there; the rules and events stay. A second evaluation of the same day adds a
-- second delivery for each of them.
pub evaluate_alerts-pairs :
    (ids ids' : ℕ → ℕ) (monitor_id bucket : ℕ) (w : AlertWorld)
    → let due = due_pairs monitor_id bucket w.rules w.events in
      let (created, w') = evaluate_alerts ids monitor_id bucket w in
      let (again, w'') = evaluate_alerts ids' monitor_id bucket w' in
      (created ≡ length due)
      × (pairs w'.deliveries ≡ pairs w.deliveries ++ due)
      × (again ≡ length due)
      × (pairs w''.deliveries ≡ (pairs w.deliveries ++ due) ++ due)
unfolding evaluate_alerts
evaluate_alerts-pairs ids ids' monitor_id bucket w =
    let (new, total) = create_all-pairs monitor_id bucket ids w.events w.rules 0 in
    let (new', total') = create_all-pairs monitor_id bucket ids' w.events w.rules 0 in
    let added =
      (create_all ids (events_for_bucket monitor_id bucket w.events)
        (enabled_for monitor_id w.rules) 0).1 in
    let added' =
      (create_all ids' (events_for_bucket monitor_id bucket w.events)
        (enabled_for monitor_id w.rules) 0).1 in
    let first = pairs-append w.deliveries added ∙ ap (λ r. pairs w.deliveries ++ r) new in
    (
      omega (arith, total),
      first,
      omega (arith, total'),
      pairs-append (w.deliveries ++ added) added' ∙ rw (first, new') refl,
    )
