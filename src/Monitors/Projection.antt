-- ===== src/Monitors/Projection.antt =====
-- What Beat runs, for a database that calls of the service have left.
use mlsc.Base.{
  ℕ, ◌≡◌, ◌∙◌, refl, sym, ap, subst, Option, none, some, Bool, true, false, ◌&&◌, List, [], ◌∷◌,
  ◌==◌, if◌then◌else◌, arith, Result, ok, err, All, inl, inr, Bool-cases, filter, length, Store,
  update, filter-same, filter-filter, All-filter,
}
use mlsc.Models.Monitors.{Monitor, ScheduleRegistration}
use mlsc.Monitors.Requests.{Tools, validate_cron_expression}
use mlsc.Monitors.{MonitorWorld, find_monitor, of_monitor, is_active}
use mlsc.Monitors.Registrations.{expected, registration_of}
use mlsc.Monitors.Histories.{Reach, Reach-Sound_monitors}
use mlsc.Monitors.Rows.{find-id}
use mlsc.Monitors.Beat.{
  Crontab, Entry, ProjectError, crontab_from_expression, is_active_monitor, list_active,
  project_one, project_each, project,
}

module _ (tools : Tools) (accepts : Crontab → Bool) where
  -- Celery's parser takes the expression of a registration.
  abbrev pub Accepted : ScheduleRegistration → Type 0
  Accepted r =
      (c : Crontab) × (crontab_from_expression tools accepts r.cron_expression r.timezone ≡ ok c)

  -- The entry of a registration, and the entry that the last of some registrations leaves.
  abbrev pub IsEntry : ScheduleRegistration → Option Entry → Type 0
  IsEntry r entry =
      (c : Crontab) × (crontab_from_expression tools accepts r.cron_expression r.timezone ≡ ok c)
      × (entry ≡ some (record { schedule = c; monitor_id = r.monitor_id }))

  abbrev pub LastEntry : List ScheduleRegistration → Option Entry → Option Entry → Type 0
  LastEntry [] before after = after ≡ before
  LastEntry (r ∷ []) before after = IsEntry r after
  LastEntry (r ∷ s ∷ rest) before after = LastEntry (s ∷ rest) before after

  LastEntry-cons :
      (r : ScheduleRegistration) (rest : List ScheduleRegistration)
      (before middle after : Option Entry)
      → IsEntry r middle
      → LastEntry rest middle after
      → LastEntry (r ∷ rest) before after
  LastEntry-cons r [] before middle after mine last = subst (IsEntry r) (sym last) mine
  LastEntry-cons r (s ∷ rest) before middle after mine last =
      LastEntry-irrelevant s rest middle before after last
    where
      LastEntry-irrelevant :
          (s : ScheduleRegistration) (rest : List ScheduleRegistration)
          (middle before after : Option Entry)
          → LastEntry (s ∷ rest) middle after
          → LastEntry (s ∷ rest) before after
      LastEntry-irrelevant s [] middle before after h = h
      LastEntry-irrelevant s (t ∷ rest) middle before after h =
          LastEntry-irrelevant t rest middle before after h

  abbrev Good : ScheduleRegistration → Type 0
  Good r = (validate_cron_expression tools r.cron_expression ≡ true) × Accepted r

  and-right : (a b : Bool) → a && b ≡ true → b ≡ true
  and-right a b h = ground arith

  project_one-ok :
      (r : ScheduleRegistration) (c : Crontab) (entries : Store Entry)
      → validate_cron_expression tools r.cron_expression ≡ true
      → crontab_from_expression tools accepts r.cron_expression r.timezone ≡ ok c
      → project_one tools accepts r entries
        ≡ ok (
            update entries r.monitor_id (some (record { schedule = c; monitor_id = r.monitor_id })))
  project_one-ok r c entries valid parsed =
      rw
        (
          and-right (length (tools.split r.cron_expression) == 5)
              (tools.croniter_is_valid r.cron_expression) valid,
          parsed,
        )
        refl

  -- One round of the loop, for the entry of one monitor.
  LastEntry-round :
      (r : ScheduleRegistration) (c : Crontab) (rest : List ScheduleRegistration)
      (before : Store Entry) (k : ℕ) (after : Option Entry)
      → crontab_from_expression tools accepts r.cron_expression r.timezone ≡ ok c
      → LastEntry
          (filter (of_monitor k) rest)
          (update before r.monitor_id (some (record { schedule = c; monitor_id = r.monitor_id })) k)
          after
      → LastEntry (filter (of_monitor k) (r ∷ rest)) (before k) after
  LastEntry-round r c rest before k after parsed last = elim (Bool-cases (r.monitor_id == k)) [
    | inl h ↦
        let same : (k == r.monitor_id) ≡ true = ground arith in
        rw h (
          LastEntry-cons r (filter (of_monitor k) rest) (before k)
            (update before r.monitor_id (some (record { schedule = c; monitor_id = r.monitor_id }))
              k)
            after (c, parsed, rw same refl) last)
    | inr h ↦
        let other : (k == r.monitor_id) ≡ false = ground arith in
        let unchanged : update before r.monitor_id
              (some (record { schedule = c; monitor_id = r.monitor_id })) k
            ≡ before k =
          rw other refl in
        rw h (subst (λ x. LastEntry (filter (of_monitor k) rest) x after) unchanged last)
  ]

  project_each-LastEntry :
      (rs : List ScheduleRegistration) (before : Store Entry)
      → All Good rs
      → (after : Store Entry) × (project_each tools accepts rs before ≡ ok after)
        × ((k : ℕ) → LastEntry (filter (of_monitor k) rs) (before k) (after k))
  project_each-LastEntry [] before good = (before, refl, λ k. refl)
  project_each-LastEntry (r ∷ rest) before ((valid, (c, parsed)), good) =
      let entries : Store Entry =
        update before r.monitor_id (some (record { schedule = c; monitor_id = r.monitor_id })) in
      let (after, projected, last) = project_each-LastEntry rest entries good in
      (
        after,
        ap (then_each rest) (project_one-ok r c before valid parsed) ∙ projected,
        λ k. LastEntry-round r c rest before k (after k) parsed (last k),
      )
    where
      then_each :
          List ScheduleRegistration
          → Result ProjectError (Store Entry)
          → Result ProjectError (Store Entry)
      then_each rest result = elim result [
        | err e ↦ err e
        | ok entries ↦ project_each tools accepts rest entries
      ]

  -- What Beat should run for a monitor: nothing, or its schedule if it is active.
  abbrev pub Planned : Option Monitor → Option Entry → Type 0
  Planned none entry = entry ≡ none
  Planned (some m) entry =
      if is_active m.status then IsEntry (registration_of m) entry else entry ≡ none

module _ (tools : Tools) (accepts : Crontab → Bool) (w : MonitorWorld) where
  abbrev is_listed : ScheduleRegistration → Bool
  is_listed r = is_active_monitor (find_monitor r.monitor_id w.monitors)

  expected-Planned :
      (k : ℕ) (found : Option Monitor) (entry : Option Entry)
      → find_monitor k w.monitors ≡ found
      → LastEntry tools accepts (filter is_listed (expected found)) none entry
      → Planned tools accepts found entry
  expected-Planned k none entry is_found last = last
  expected-Planned k (some m) entry is_found last =
      let mine : find_monitor m.id w.monitors ≡ some m =
        subst (λ i. find_monitor i w.monitors ≡ some m) (sym (find-id k m w.monitors is_found))
          is_found in
      elim (Bool-cases (is_active m.status)) [
        | inl h ↦
            let rows : filter is_listed (expected (some m)) ≡ registration_of m ∷ [] =
              rw (h, mine, h) refl in
            rw h (subst (λ rs. LastEntry tools accepts rs none entry) rows last)
        | inr h ↦
            let rows : filter is_listed (expected (some m)) ≡ [] = rw h refl in
            rw h (subst (λ rs. LastEntry tools accepts rs none entry) rows last)
      ]

  listed :
      (k : ℕ) (rs : List ScheduleRegistration)
      → filter (of_monitor k) (filter is_listed rs) ≡ filter is_listed (filter (of_monitor k) rs)
  listed k rs =
      filter-filter (of_monitor k) is_listed rs
      ∙ filter-same (λ r. is_listed r && of_monitor k r) (λ r. of_monitor k r && is_listed r) rs
          (λ r. and_comm (is_listed r) (of_monitor k r))
      ∙ sym (filter-filter is_listed (of_monitor k) rs)
    where
      and_comm : (a b : Bool) → a && b ≡ b && a
      and_comm a b = ground arith

  All-both :
      (rs : List ScheduleRegistration)
      → All (λ r. validate_cron_expression tools r.cron_expression ≡ true) rs
      → All (Accepted tools accepts) rs
      → All (Good tools accepts) rs
  All-both [] valid accepted = tt
  All-both (r ∷ rest) valid accepted = ((valid.0, accepted.0), All-both rest valid.1 accepted.1)

-- Whatever monitors were created and changed, and if Celery's parser takes the stored expressions, Beat
-- gets an entry for each active monitor, with the monitor's current schedule and timezone, and none for
-- any other.
pub project-Planned :
    (tools : Tools) (accepts : Crontab → Bool) (w : MonitorWorld)
    → Reach tools w
    → All (Accepted tools accepts) w.registrations
    → (entries : Store Entry) × (project tools accepts w ≡ ok entries)
      × ((k : ℕ) → Planned tools accepts (find_monitor k w.monitors) (entries k))
unfolding project
project-Planned tools accepts w reached accepted =
    let (scheduled, (monitors_valid, valid)) = Reach-Sound_monitors tools reached in
    let (entries, projected, last) =
      project_each-LastEntry tools accepts (list_active w) (λ id. none)
        (All-filter (Good tools accepts) (is_listed tools accepts w) w.registrations
          (All-both tools accepts w w.registrations valid accepted)) in
    (
      entries,
      projected,
      λ k. expected-Planned tools accepts w k (find_monitor k w.monitors) (entries k) refl (
          subst (λ rs. LastEntry tools accepts rs none (entries k))
            (listed tools accepts w k w.registrations
              ∙ ap (filter (is_listed tools accepts w)) (scheduled k))
            (last k)),
    )
