-- ===== src/Monitors/Registrations.antt =====
-- The registrations of one monitor, under the operations of `ScheduleRegistrationRepository`.
use mlsc.Base.{
  ℕ, ◌≡◌, ◌∙◌, ◌⊎◌, refl, sym, ap, subst, Option, none, some, true, false, not, ◌&&◌, List, [], ◌∷◌,
  ◌++◌, map, ◌==◌, ==_iff, ==_refl, if◌then◌else◌, arith, ok, All, inl, inr, Bool-cases, filter,
  filter-same, filter-filter, filter-append, filter-map, map-filter, filter-none, filter-All,
  append-[], All-map, All-append,
}
use mlsc.Models.Monitors.{Monitor, ScheduleRegistration}
use mlsc.Monitors.{
  of_monitor, rescheduled, new_registration, upsert_found, upsert_active, delete_all_for, is_active,
}

abbrev pub registration_of : Monitor → ScheduleRegistration
registration_of m = new_registration m.id m.schedule m.timezone

-- The registrations that a monitor should have.
abbrev pub expected : Option Monitor → List ScheduleRegistration
expected none = []
expected (some m) = if is_active m.status then registration_of m ∷ [] else []

-- At most one.
abbrev pub AtMostOne : List ScheduleRegistration → Type 0
AtMostOne rs = (rs ≡ []) ⊎ ((r : ScheduleRegistration) × (rs ≡ r ∷ []))

pub expected-AtMostOne : (m : Option Monitor) → AtMostOne (expected m)
expected-AtMostOne none = inl refl
expected-AtMostOne (some m) = elim (Bool-cases (is_active m.status)) [
  | inl h ↦ inr (registration_of m, rw h refl)
  | inr h ↦ inl (rw h refl)
]

-- What a change of the registrations of one monitor leaves.
abbrev pub Registered :
    (id : ℕ)
    → (mine : List ScheduleRegistration) → (before after : List ScheduleRegistration) → Type 0
Registered id mine before after =
    (filter (of_monitor id) after ≡ mine)
    × ((k : ℕ) → (k == id) ≡ false → filter (of_monitor k) after ≡ filter (of_monitor k) before)

not_both :
    (k id : ℕ) (r : ScheduleRegistration)
    → (k == id) ≡ false
    → of_monitor k r ≡ true
    → of_monitor id r ≡ false
not_both k id r other mine = ground arith

of_monitor-rescheduled :
    (k id cron timezone : ℕ) (r : ScheduleRegistration)
    → of_monitor k (rescheduled id cron timezone r) ≡ of_monitor k r
of_monitor-rescheduled k id cron timezone r = elim (Bool-cases (of_monitor id r)) [
  | inl h ↦ rw h refl
  | inr h ↦ rw h refl
]

rescheduled-mine :
    (id cron timezone : ℕ) (r : ScheduleRegistration)
    → of_monitor id r ≡ true
    → rescheduled id cron timezone r ≡ new_registration id cron timezone
rescheduled-mine id cron timezone r mine =
    rw mine (ap (λ i. new_registration i cron timezone) ((==_iff r.monitor_id id).0 mine))

rescheduled-other :
    (id cron timezone : ℕ) (r : ScheduleRegistration)
    → of_monitor id r ≡ false
    → rescheduled id cron timezone r ≡ r
rescheduled-other id cron timezone r other = rw other refl

-- The one that is found belongs to the monitor.
found-mine :
    (id : ℕ) (r : ScheduleRegistration) (before : List ScheduleRegistration)
    → filter (of_monitor id) before ≡ r ∷ []
    → of_monitor id r ≡ true
found-mine id r before one =
    (subst (All (λ x. of_monitor id x ≡ true)) one (filter-All (of_monitor id) before)).0

module _ (id cron timezone : ℕ) (before : List ScheduleRegistration) where
  appended-Registered :
      filter (of_monitor id) before ≡ []
      → let r = new_registration id cron timezone in
        Registered id (r ∷ []) before (before ++ (r ∷ []))
  appended-Registered nothing =
      let r = new_registration id cron timezone in
      (
        rw (filter-append (of_monitor id) before (r ∷ []), nothing, ==_refl id) refl,
        λ k other.
            rw (filter-append (of_monitor k) before (r ∷ []), different k other)
              (append-[] (filter (of_monitor k) before)),
      )
    where
      different : (k : ℕ) → (k == id) ≡ false → (id == k) ≡ false
      different k other = ground arith

  changed-Registered :
      (r : ScheduleRegistration)
      → filter (of_monitor id) before ≡ r ∷ []
      → Registered id
          (new_registration id cron timezone ∷ [])
          before
          (map (rescheduled id cron timezone) before)
  changed-Registered r one = (
    filter-map (of_monitor id) (rescheduled id cron timezone) before
          (of_monitor-rescheduled id id cron timezone)
        ∙ ap (map (rescheduled id cron timezone)) one
        ∙ ap (λ x. x ∷ []) (rescheduled-mine id cron timezone r (found-mine id r before one)),
    λ k other.
        filter-map (of_monitor k) (rescheduled id cron timezone) before
          (of_monitor-rescheduled k id cron timezone)
        ∙ map-filter (of_monitor k) (rescheduled id cron timezone) before
            (λ x mine. rescheduled-other id cron timezone x (not_both k id x other mine)),
  )

  pub Registered-upsert :
      AtMostOne (filter (of_monitor id) before)
      → (after : List ScheduleRegistration) × (upsert_active id cron timezone before ≡ ok after)
        × Registered id (new_registration id cron timezone ∷ []) before after
  unfolding upsert_active
  Registered-upsert (inl nothing) = (
    before ++ (new_registration id cron timezone ∷ []),
    rw (upsert_active, nothing) refl,
    appended-Registered nothing,
  )
  Registered-upsert (inr (r, one)) = (
    map (rescheduled id cron timezone) before,
    rw (upsert_active, one) refl,
    changed-Registered r one,
  )

-- A property of the registrations that the new one has too.
module _ (P : ScheduleRegistration → Type 0) (id cron timezone : ℕ)
    (new : P (new_registration id cron timezone)) where
  rescheduled-keeps : (r : ScheduleRegistration) → P r → P (rescheduled id cron timezone r)
  rescheduled-keeps r old = elim (Bool-cases (of_monitor id r)) [
    | inl h ↦ subst P (sym (rescheduled-mine id cron timezone r h)) new
    | inr h ↦ subst P (sym (rescheduled-other id cron timezone r h)) old
  ]

  upserted-keeps :
      (found before after : List ScheduleRegistration)
      → upsert_found id cron timezone found before ≡ ok after
      → All P before
      → All P after
  upserted-keeps [] before after same h =
      let result : before ++ (new_registration id cron timezone ∷ []) ≡ after = cc in
      subst (All P) result
        (All-append P before (new_registration id cron timezone ∷ []) h (new, tt))
  upserted-keeps (r ∷ []) before after same h =
      let result : map (rescheduled id cron timezone) before ≡ after = cc in
      subst (All P) result (All-map P (rescheduled id cron timezone) before rescheduled-keeps h)
  upserted-keeps (r ∷ s ∷ rest) before after same h = absurd cc

  pub upsert_active-keeps :
      (before after : List ScheduleRegistration)
      → upsert_active id cron timezone before ≡ ok after
      → All P before
      → All P after
  unfolding upsert_active
  upsert_active-keeps before after same h =
      upserted-keeps (filter (of_monitor id) before) before after same h

pub Registered-delete :
    (id : ℕ) (before : List ScheduleRegistration)
    → Registered id [] before (delete_all_for id before)
unfolding delete_all_for
Registered-delete id before = (
  filter-filter (of_monitor id) (λ r. not (of_monitor id r)) before
      ∙ filter-none (λ r. not (of_monitor id r) && of_monitor id r) before (λ r. ground arith),
  λ k other.
      filter-filter (of_monitor k) (λ r. not (of_monitor id r)) before
      ∙ filter-same (λ r. not (of_monitor id r) && of_monitor k r) (of_monitor k) before
          (λ r. ground arith),
)
