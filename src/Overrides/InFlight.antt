-- ===== src/Overrides/InFlight.antt =====
-- One job in flight for each monitor and kind.
use mlsc.Base.{
  ℕ, ◌≡◌, refl, Option, none, some, Bool, false, ◌&&◌, List, [], ◌∷◌, arith, Result, ok, err, All,
  inl, inr, Bool-cases, filter,
}
use mlsc.Models.Jobs.{OverrideKind, OverrideParameters, OverrideJob}
use mlsc.Runs.{scalar_one_or_none}
use mlsc.Overrides.{
  Tools, OverrideRequest, OverrideWorld, OverrideError, is_in_flight, competes, parameters_for,
  added, selected, checked, submit,
}

-- Two jobs in flight that the service keeps apart.
abbrev pub rivals : OverrideJob → OverrideJob → Bool
rivals a b = is_in_flight a.status && competes a.monitor_id a.kind b

abbrev pub OneInFlight : List OverrideJob → Type 0
OneInFlight [] = Unit
OneInFlight (j ∷ rest) = All (λ k. rivals j k ≡ false) rest × OneInFlight rest

found_none : (jobs : List OverrideJob) → scalar_one_or_none jobs ≡ some none → jobs ≡ []
found_none [] h = refl
found_none (j ∷ []) h = cc
found_none (j ∷ k ∷ rest) h = cc

filter-nothing :
    (test : OverrideJob → Bool) (jobs : List OverrideJob)
    → filter test jobs ≡ []
    → All (λ k. test k ≡ false) jobs
filter-nothing test [] h = tt
filter-nothing test (j ∷ rest) h = elim (Bool-cases (test j)) [
  | inl hit ↦ absurd (ground (arith, hit))
  | inr miss ↦ (miss, filter-nothing test rest (ground (arith, miss)))
]

added-OneInFlight :
    (id monitor_id : ℕ) (kind : OverrideKind) (w : OverrideWorld) (p : Option OverrideParameters)
    → All (λ k. competes monitor_id kind k ≡ false) w.jobs
    → OneInFlight w.jobs
    → OneInFlight (added id monitor_id kind w p).1.jobs
added-OneInFlight id monitor_id kind w none apart one = one
added-OneInFlight id monitor_id kind w (some of_kind) apart one = (apart, one)

selected-OneInFlight :
    (id monitor_id : ℕ) (r : OverrideRequest) (w : OverrideWorld) (o : Option (Option OverrideJob))
    → (o ≡ some none → All (λ k. competes monitor_id r.kind k ≡ false) w.jobs)
    → OneInFlight w.jobs
    → OneInFlight (selected id monitor_id r w o).1.jobs
selected-OneInFlight id monitor_id r w none apart one = one
selected-OneInFlight id monitor_id r w (some (some job)) apart one = one
selected-OneInFlight id monitor_id r w (some none) apart one =
    added-OneInFlight id monitor_id r.kind w (parameters_for r.kind r) (apart refl) one

checked-OneInFlight :
    (id monitor_id : ℕ) (r : OverrideRequest) (w : OverrideWorld)
    (c : Result OverrideError (Unit {0}))
    → OneInFlight w.jobs
    → OneInFlight (checked id monitor_id r w c).1.jobs
checked-OneInFlight id monitor_id r w (err e) one = one
checked-OneInFlight id monitor_id r w (ok fine) one =
    selected-OneInFlight id monitor_id r w
      (scalar_one_or_none (filter (competes monitor_id r.kind) w.jobs))
      (λ h.
        filter-nothing (competes monitor_id r.kind) w.jobs
          (found_none (filter (competes monitor_id r.kind) w.jobs) h))
      one

-- Where no monitor has two jobs of one kind in flight, this is so after `submit`, whatever it returns
-- or raises.
pub submit-OneInFlight :
    (t : Tools) (id monitor_id today : ℕ) (r : OverrideRequest) (w : OverrideWorld)
    → OneInFlight w.jobs
    → OneInFlight (submit t id monitor_id today r w).1.jobs
unfolding submit
submit-OneInFlight t id monitor_id today r w one = checked-OneInFlight id monitor_id r w _ one
