-- ===== src/Monitors/Scheduling.antt =====
-- The registrations that a call leaves, for one monitor and for all.
use mlsc.Base.{
  ℕ, ◌≡◌, ◌∙◌, sym, ap, subst, some, Bool, true, false, not, List, [], ◌∷◌, ◌==◌, ==_iff,
  if◌then◌else◌, Result, ok, All, inl, inr, Bool-cases, filter, All-filter,
}
use mlsc.Models.Monitors.{Monitor, ScheduleRegistration}
use mlsc.Monitors.Requests.{Tools, validate_cron_expression}
use mlsc.Monitors.{
  MonitorError, find_monitor, of_monitor, upsert_active, delete_all_for, is_active, reregistered,
}
use mlsc.Monitors.Registrations.{
  expected, registration_of, expected-AtMostOne, AtMostOne, Registered, Registered-upsert,
  Registered-delete, upsert_active-keeps,
}

-- Each active monitor has one registration, with its schedule, and no other monitor has one.
abbrev pub Scheduled : List Monitor → List ScheduleRegistration → Type 0
Scheduled monitors registrations =
    (k : ℕ) → filter (of_monitor k) registrations ≡ expected (find_monitor k monitors)

-- Every stored expression passed the validator.
abbrev pub ValidCrons : Tools → List Monitor → List ScheduleRegistration → Type 0
ValidCrons tools monitors registrations =
    All (λ m. validate_cron_expression tools m.schedule ≡ true) monitors
    × All (λ r. validate_cron_expression tools r.cron_expression ≡ true) registrations

-- A change of one monitor and its registrations.
pub Scheduled-change :
    (m : Monitor) (monitors monitors' : List Monitor) (rs rs' : List ScheduleRegistration)
    → find_monitor m.id monitors' ≡ some m
    → ((k : ℕ) → (k == m.id) ≡ false → find_monitor k monitors' ≡ find_monitor k monitors)
    → Registered m.id (expected (some m)) rs rs'
    → Scheduled monitors rs
    → Scheduled monitors' rs'
Scheduled-change m monitors monitors' rs rs' same others registered scheduled k =
    elim (Bool-cases (k == m.id)) [
      | inl h ↦
          subst (λ i. filter (of_monitor i) rs' ≡ expected (find_monitor i monitors'))
            (sym ((==_iff k m.id).0 h)) (registered.0 ∙ ap expected (sym same))
      | inr h ↦ registered.1 k h ∙ scheduled k ∙ ap expected (sym (others k h))
    ]

at_most_one :
    (id : ℕ) (monitors : List Monitor) (rs : List ScheduleRegistration)
    → Scheduled monitors rs
    → AtMostOne (filter (of_monitor id) rs)
at_most_one id monitors rs scheduled =
    subst AtMostOne (sym (scheduled id)) (expected-AtMostOne (find_monitor id monitors))

-- The registrations that a call leaves for the status of the monitor.
module _ (tools : Tools) (m : Monitor) (monitors : List Monitor)
    (rs rs' : List ScheduleRegistration) (scheduled : Scheduled monitors rs)
    (valid : validate_cron_expression tools m.schedule ≡ true)
    (valids : All (λ r. validate_cron_expression tools r.cron_expression ≡ true) rs) where
  upserted-expected :
      is_active m.status ≡ true
      → upsert_active m.id m.schedule m.timezone rs ≡ ok rs'
      → Registered m.id (expected (some m)) rs rs'
        × All (λ r. validate_cron_expression tools r.cron_expression ≡ true) rs'
  upserted-expected active left =
      let (after, returned, registered) =
        Registered-upsert m.id m.schedule m.timezone rs (at_most_one m.id monitors rs scheduled) in
      let same : after ≡ rs' = cc in
      rw active (
        subst (Registered m.id (registration_of m ∷ []) rs) same registered,
        upsert_active-keeps (λ r. validate_cron_expression tools r.cron_expression ≡ true) m.id
            m.schedule m.timezone valid rs rs' left valids,
      )

  deleted-expected :
      is_active m.status ≡ false
      → delete_all_for m.id rs ≡ rs'
      → Registered m.id (expected (some m)) rs rs'
        × All (λ r. validate_cron_expression tools r.cron_expression ≡ true) rs'
  unfolding delete_all_for
  deleted-expected inactive left = rw inactive (
    subst (Registered m.id [] rs) left (Registered-delete m.id rs),
    subst (All (λ r. validate_cron_expression tools r.cron_expression ≡ true)) left (
        All-filter (λ r. validate_cron_expression tools r.cron_expression ≡ true)
          (λ r. not (of_monitor m.id r)) rs valids),
  )

  pub reregistered-expected :
      reregistered m rs ≡ ok rs'
      → Registered m.id (expected (some m)) rs rs'
        × All (λ r. validate_cron_expression tools r.cron_expression ≡ true) rs'
  reregistered-expected left =
      let chosen : Bool → Result MonitorError (List ScheduleRegistration) = λ b.
        if b then (upsert_active m.id m.schedule m.timezone rs) else ok (delete_all_for m.id rs) in
      elim (Bool-cases (is_active m.status)) [
        | inl h ↦ upserted-expected h (ap chosen (sym h) ∙ left)
        | inr h ↦
            let deleted_result : Result MonitorError (List ScheduleRegistration) =
              ok (delete_all_for m.id rs) in
            let deleted : deleted_result ≡ ok rs' = ap chosen (sym h) ∙ left in
            deleted-expected h cc
      ]
