-- ===== src/Dispatch/Outcomes.antt =====
-- What a run's outcomes say of its ledger.
use mlsc.Base.{
  ◌||◌, not, ◌≡◌, refl, subst, ℕ, ◌+◌, some, true, false, ◌∷◌, length, any, arith, Result, ok, err,
}
use mlsc.Models.{MonitorSource, FetchStats}
use mlsc.Runs.{SourceOutcome, is_failed, is_collected}
use mlsc.Ingest.{
  IngestWorld, CollectError, truthy, same_row, Collection, find_source, collect_source,
}
use mlsc.Ingest.Ledger.{Recorded, PlanAnswers, collect_source-Recorded}
use mlsc.Dispatch.{captured, collect_one_source}

abbrev pub OutcomeOf :
    (run_id source_id : ℕ) → IngestWorld → Result CollectError SourceOutcome × IngestWorld → Type 0
OutcomeOf run_id source_id w (err e, w') = ⊥
OutcomeOf run_id source_id w (ok outcome, w') =
    (stats : FetchStats) × (w'.stats ≡ stats ∷ w.stats)
    × (stats.run_id ≡ run_id)
    × (stats.monitor_source_id ≡ source_id)
    × (outcome.source_id ≡ source_id)
    × (outcome.kept ≡ stats.kept)
    × (is_failed outcome.result ≡ (stats.validation_failed || truthy stats.error))
    × (is_collected outcome.result ≡ not (stats.validation_failed || truthy stats.error))
    × (length w'.documents ≡ length w.documents + outcome.kept)

captured-OutcomeOf :
    (run_id source_id : ℕ) (w : IngestWorld) (r : Result CollectError FetchStats × IngestWorld)
    → Recorded run_id source_id w r
    → OutcomeOf run_id source_id w (captured source_id r)
captured-OutcomeOf run_id source_id w (err e, w') recorded = absurd recorded
captured-OutcomeOf run_id source_id w (ok stats, w') (row, run, source, documents, _, _, _) =
    (stats, row, run, source, refl, refl, ground arith, ground arith, documents)

-- For an enabled source without a row for this run, whose adapters answer, `collect_one_source` returns
-- an outcome and raises nothing. The outcome is failed exactly if the row that was written says so,
-- collected exactly if it does not, and counts the documents that were added.
pub collect_one_source-OutcomeOf :
    (c : Collection) (source found : MonitorSource) (w : IngestWorld)
    → find_source source.id w.sources ≡ some found
    → found.id ≡ source.id
    → found.enabled ≡ true
    → any (same_row c.run_id found.id) w.stats ≡ false
    → PlanAnswers (c.plan_for found)
    → OutcomeOf c.run_id source.id w (collect_one_source c source w)
unfolding collect_one_source
collect_one_source-OutcomeOf c source found w there same enabled new answers =
    captured-OutcomeOf c.run_id source.id w (collect_source c source.id w) (
      subst (λ id. Recorded c.run_id id w (collect_source c source.id w)) same
        (collect_source-Recorded c source.id found w there enabled new answers))
