-- ===== src/Monitors/Histories.antt =====
-- What every sequence of creations and updates of monitors keeps.
use mlsc.Base.{
  ℕ, ◌≡◌, refl, sym, subst, Option, none, some, true, false, List, [], ◌∷◌, ◌==◌, if◌then◌else◌, ok,
  All, All-map, All-append, >>=-eq-ok,
}
use mlsc.Models.Monitors.{Monitor, ScheduleRegistration}
use mlsc.Monitors.Requests.{
  Tools, MonitorCreateRequest, MonitorUpdateRequest, optional, validate_cron_expression,
  validate_create, validate_update,
}
use mlsc.Monitors.{
  value_error, MonitorWorld, validated_seed, find_monitor, new_monitor, insert, theme_seeded,
  create, updated, reregistered, store_monitor, update_found, update,
}
use mlsc.Monitors.Rows.{
  find-insert-same, find-insert-other, find-store-same, find-store-other, find-id, find-All,
  stored-valid, insert-eq-ok,
}
use mlsc.Monitors.Crons.{guard_ok, validate_create-cron, validate_update-cron, or_else-valid}
use mlsc.Monitors.Scheduling.{Scheduled, ValidCrons, Scheduled-change, reregistered-expected}

abbrev pub Sound : Tools → MonitorWorld → Type 0
Sound tools w = Scheduled w.monitors w.registrations × ValidCrons tools w.monitors w.registrations

-- The calls that commit.
pub data Step (tools : Tools) : MonitorWorld → MonitorWorld → Type 0 where
  created :
      (id seed_id : ℕ) (raw request : MonitorCreateRequest) (w w' : MonitorWorld)
      → validate_create tools raw ≡ some request
      → create id seed_id request w ≡ ok w'
      → Step tools w w'
  changed :
      (id : ℕ) (raw request : MonitorUpdateRequest) (w w' : MonitorWorld)
      → validate_update tools raw ≡ some request
      → update tools id request w ≡ ok w'
      → Step tools w w'

abbrev pub empty : MonitorWorld
empty = record { monitors = []; registrations = []; theme_seeds = [] }

-- The worlds that calls reach from the empty database.
pub data Reach (tools : Tools) : MonitorWorld → Type 0 where
  start : Reach tools empty
  then_step : {w w' : MonitorWorld} → Reach tools w → Step tools w w' → Reach tools w'

-- The monitors and the registrations that a call leaves.
Sound-change :
    (tools : Tools) (m : Monitor) (w : MonitorWorld) (monitors' : List Monitor)
    (rs' : List ScheduleRegistration)
    → find_monitor m.id monitors' ≡ some m
    → ((k : ℕ) → (k == m.id) ≡ false → find_monitor k monitors' ≡ find_monitor k w.monitors)
    → All (λ n. validate_cron_expression tools n.schedule ≡ true) monitors'
    → validate_cron_expression tools m.schedule ≡ true
    → reregistered m w.registrations ≡ ok rs'
    → Sound tools w
    → Scheduled monitors' rs' × ValidCrons tools monitors' rs'
Sound-change tools m w monitors' rs' same others valids valid left sound =
    let (registered, rs_valid) =
      reregistered-expected tools m w.monitors w.registrations rs' sound.0 valid sound.1.1 left in
    (
      Scheduled-change m w.monitors monitors' w.registrations rs' same others registered sound.0,
      (valids, rs_valid),
    )

create-Sound :
    (tools : Tools) (id seed_id : ℕ) (request : MonitorCreateRequest) (w w' : MonitorWorld)
    → validate_cron_expression tools request.cron_expression ≡ true
    → create id seed_id request w ≡ ok w'
    → Sound tools w
    → Sound tools w'
unfolding create
create-Sound tools id seed_id request w w' valid returned sound =
    let m = new_monitor id request in
    let (monitors, inserted, after_insert) = >>=-eq-ok (insert m w.monitors) _ returned in
    let (rs, upserted, after_upsert) = >>=-eq-ok (reregistered m w.registrations) _ after_insert in
    let (seeds, seeded, committed) =
      >>=-eq-ok (theme_seeded seed_id id request request.target_type w.theme_seeds) _
        after_upsert in
    let w'' : MonitorWorld = record {
      monitors = monitors;
      registrations = rs;
      theme_seeds = seeds;
    } in
    let same : w'' ≡ w' = cc in
    let (fresh, appended) = insert-eq-ok m w.monitors monitors inserted in
    subst (Sound tools) same (
      Sound-change tools m w monitors rs
        (subst (λ x. find_monitor id x ≡ some m) appended (find-insert-same m w.monitors fresh).1)
        (λ k other.
          subst (λ x. find_monitor k x ≡ find_monitor k w.monitors) appended
            (find-insert-other k m w.monitors other))
        (subst (All (λ n. validate_cron_expression tools n.schedule ≡ true)) appended (
          All-append (λ n. validate_cron_expression tools n.schedule ≡ true) w.monitors (m ∷ [])
            sound.1.0 (valid, tt)))
        valid upserted sound)

update_found-Sound :
    (tools : Tools) (id : ℕ) (request : MonitorUpdateRequest) (w w' : MonitorWorld)
    (found : Option Monitor)
    → find_monitor id w.monitors ≡ found
    → optional (validate_cron_expression tools) request.cron_expression ≡ true
    → update_found tools id request w found ≡ ok w'
    → Sound tools w
    → Sound tools w'
update_found-Sound tools id request w w' none is_found valid returned sound = absurd cc
update_found-Sound tools id request w w' (some m) is_found valid returned sound =
    let m' = updated request m in
    let left =
      guard_ok (validated_seed tools m.target_type request.seed) _ value_error w' returned in
    let (rs, registered, committed) = >>=-eq-ok (reregistered m' w.registrations) _ left in
    let w'' : MonitorWorld = record w {
      monitors = store_monitor m' w.monitors;
      registrations = rs;
    } in
    let same : w'' ≡ w' = cc in
    let cron_valid =
      or_else-valid (validate_cron_expression tools) request.cron_expression m.schedule valid (
        find-All (λ n. validate_cron_expression tools n.schedule ≡ true) id m w.monitors is_found
          sound.1.0) in
    let mine : find_monitor m.id w.monitors ≡ some m =
      subst (λ i. find_monitor i w.monitors ≡ some m) (sym (find-id id m w.monitors is_found))
        is_found in
    subst (Sound tools) same (
      Sound-change tools m' w (store_monitor m' w.monitors) rs
        (find-store-same m' m w.monitors mine) (λ k other. find-store-other k m' w.monitors other)
        (All-map (λ n. validate_cron_expression tools n.schedule ≡ true)
          (λ n. if n.id == m.id then m' else n) w.monitors
          (stored-valid (λ n. validate_cron_expression tools n.schedule ≡ true) m' cron_valid)
          sound.1.0)
        cron_valid registered sound)

update-Sound :
    (tools : Tools) (id : ℕ) (request : MonitorUpdateRequest) (w w' : MonitorWorld)
    → optional (validate_cron_expression tools) request.cron_expression ≡ true
    → update tools id request w ≡ ok w'
    → Sound tools w
    → Sound tools w'
unfolding update
update-Sound tools id request w w' valid returned sound =
    update_found-Sound tools id request w w' (find_monitor id w.monitors) refl valid returned sound

pub Reach-Sound_monitors : (tools : Tools) {w : MonitorWorld} → Reach tools w → Sound tools w
Reach-Sound_monitors tools start = (λ k. refl, (tt, tt))
Reach-Sound_monitors tools
      (then_step reached (created id seed_id raw request w w' valid returned)) =
    create-Sound tools id seed_id request w w' (validate_create-cron tools raw request valid)
      returned (Reach-Sound_monitors tools reached)
Reach-Sound_monitors tools (then_step reached (changed id raw request w w' valid returned)) =
    update-Sound tools id request w w' (validate_update-cron tools raw request valid) returned
      (Reach-Sound_monitors tools reached)
