-- ===== src/Runs/Classification.antt =====
-- What the status of a finalised run says of its sources' outcomes.
use mlsc.Base.{
  ◌≤◌, ◌≡◌, ◌↔◌, ◌⊎◌, Bool, true, false, List, All, Has, sum_by, any-Has, any-All, sum_by-zero,
  sum_by-pos, arith,
}
use mlsc.Models.{partial, complete, failed}
use mlsc.Runs.{SourceOutcome, is_collected, is_failed, classify}

-- Volume was not expected, or something was kept.
abbrev pub VolumeIsFine : (expected_volume : Bool) → List SourceOutcome → Type 0
VolumeIsFine expected_volume outcomes = (expected_volume ≡ false) ⊎ Has (λ o. 1 ≤ o.kept) outcomes

-- A run is complete exactly if no source failed and its volume is fine; partial exactly if some source
-- failed, another was collected, and its volume is fine; and failed exactly if volume was expected and
-- no source kept anything, or some source failed and none was collected.
pub classify-meets :
    (outcomes : List SourceOutcome) (expected_volume : Bool)
    → ((classify outcomes expected_volume ≡ complete)
        ↔ (All (λ o. is_failed o.result ≡ false) outcomes × VolumeIsFine expected_volume outcomes))
      × ((classify outcomes expected_volume ≡ partial) ↔ (
          Has (λ o. is_failed o.result ≡ true) outcomes
          × Has (λ o. is_collected o.result ≡ true) outcomes
          × VolumeIsFine expected_volume outcomes))
      × ((classify outcomes expected_volume ≡ failed) ↔ (
          ((expected_volume ≡ true) × All (λ o. o.kept ≡ 0) outcomes)
          ⊎ (Has (λ o. is_failed o.result ≡ true) outcomes
              × All (λ o. is_collected o.result ≡ false) outcomes)))
unfolding classify
classify-meets outcomes expected_volume =
    let total = sum_by (λ o. o.kept) outcomes in
    ground (
      arith,
      any-Has (λ o. is_failed o.result) outcomes,
      any-All (λ o. is_failed o.result) outcomes,
      any-Has (λ o. is_collected o.result) outcomes,
      any-All (λ o. is_collected o.result) outcomes,
      sum_by-zero (λ o. o.kept) outcomes,
      sum_by-pos (λ o. o.kept) outcomes,
    )
