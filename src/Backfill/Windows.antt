-- ===== src/Backfill/Windows.antt =====
-- The windows of a monitor's jobs in flight do not overlap.
use mlsc.Base.{
  ℕ, ◌≡◌, refl, Option, none, some, Bool, false, ◌&&◌, ◌||◌, List, [], ◌∷◌, ltb, arith, All, inl,
  inr, Bool-cases, filter,
}
use mlsc.Models.Jobs.{BackfillJob}
use mlsc.Runs.{scalar_one_or_none}
use mlsc.Backfill.{BackfillWorld, is_backfill_in_flight, overlaps, new_backfill, recorded, submit}

-- Two jobs in flight for the same dates.
abbrev pub clash : BackfillJob → BackfillJob → Bool
clash a b = is_backfill_in_flight a.status && overlaps a.monitor_id a.window_start a.window_end b

abbrev pub Disjoint : List BackfillJob → Type 0
Disjoint [] = Unit
Disjoint (j ∷ rest) = All (λ k. clash j k ≡ false) rest × Disjoint rest

found_none : (jobs : List BackfillJob) → scalar_one_or_none jobs ≡ some none → jobs ≡ []
found_none [] h = refl
found_none (j ∷ []) h = cc
found_none (j ∷ k ∷ rest) h = cc

filter-nothing :
    (test : BackfillJob → Bool) (jobs : List BackfillJob)
    → filter test jobs ≡ []
    → All (λ k. test k ≡ false) jobs
filter-nothing test [] h = tt
filter-nothing test (j ∷ rest) h = elim (Bool-cases (test j)) [
  | inl hit ↦ absurd (ground (arith, hit))
  | inr miss ↦ (miss, filter-nothing test rest (ground (arith, miss)))
]

recorded-Disjoint :
    (job : BackfillJob) (w : BackfillWorld) (o : Option (Option BackfillJob))
    → Disjoint w.jobs
    → (o ≡ some none → All (λ k. clash job k ≡ false) w.jobs)
    → Disjoint (recorded job w o).1.jobs
recorded-Disjoint job w none disjoint h = disjoint
recorded-Disjoint job w (some (some other)) disjoint h = disjoint
recorded-Disjoint job w (some none) disjoint h = (h refl, disjoint)

-- Where no two jobs in flight for one monitor share a date, this is so after `submit`, whatever it
-- returns or raises.
pub submit-Disjoint :
    (id monitor_id window_start window_end today : ℕ) (w : BackfillWorld)
    → Disjoint w.jobs
    → Disjoint (submit id monitor_id window_start window_end today w).1.jobs
unfolding submit
submit-Disjoint id monitor_id window_start window_end today w disjoint =
    elim (Bool-cases (ltb window_end window_start || ltb today window_end)) [
      | inl bad ↦ rw bad disjoint
      | inr fine ↦ rw fine (
          recorded-Disjoint (new_backfill id monitor_id window_start window_end) w
            (scalar_one_or_none (filter (overlaps monitor_id window_start window_end) w.jobs))
            disjoint
            (λ h.
              filter-nothing (overlaps monitor_id window_start window_end) w.jobs
                (found_none (filter (overlaps monitor_id window_start window_end) w.jobs) h)))
    ]
