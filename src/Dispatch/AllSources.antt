-- ===== src/Dispatch/AllSources.antt =====
-- The loop over all of a run's sources.
use mlsc.Base.{
  ◌≡◌, refl, sym, ap, ◌∙◌, subst, ℕ, ◌+◌, Option, none, some, false, List, [], ◌∷◌, length, sum_by,
  All, any, arith, Result, ok, err, ◌==◌,
}
use mlsc.Models.{MonitorSource, FetchStats}
use mlsc.Runs.{SourceOutcome}
use mlsc.Ingest.{
  source_not_found, source_disabled, stats_conflict, uncaught, IngestWorld, CollectError, same_row,
  Collection, find_source, collect_source,
}
use mlsc.Ingest.Ledger.{PlanAnswers}
use mlsc.Dispatch.{captured, joined, collect_one_source, collect_all}
use mlsc.Dispatch.Rows.{EnabledRow, IsEnabled, collect_source-IsEnabled}
use mlsc.Dispatch.Outcomes.{OutcomeOf, collect_one_source-OutcomeOf}

-- An enabled source without a row for the run, whose plan's adapters answer.
abbrev pub IsReady :
    (run_id : ℕ) → (MonitorSource → Collection) → IngestWorld → MonitorSource → Type 0
IsReady run_id c w s =
    ((c s).run_id ≡ run_id)
    × IsEnabled w.sources s.id
    × (any (same_row run_id s.id) w.stats ≡ false)
    × ((row : MonitorSource) → PlanAnswers ((c s).plan_for row))

abbrev pub DistinctIds : List MonitorSource → Type 0
DistinctIds [] = Unit
DistinctIds (s ∷ rest) = All (λ t. (s.id == t.id) ≡ false) rest × DistinctIds rest

-- One outcome and one new ledger row for each source, which count the new documents together.
abbrev pub AllCollected :
    List MonitorSource
    → IngestWorld
    → Result CollectError (List SourceOutcome) × IngestWorld
    → Type 0
AllCollected sources w (err e, w') = ⊥
AllCollected sources w (ok outcomes, w') =
    (length outcomes ≡ length sources)
    × (length w'.stats ≡ length w.stats + length sources)
    × (length w'.documents ≡ length w.documents + sum_by (λ o. o.kept) outcomes)

module _ (run_id : ℕ) (c : MonitorSource → Collection) where
  captured-sources :
      (id : ℕ) (r : Result CollectError FetchStats × IngestWorld) → (captured id r).1 ≡ r.1
  captured-sources id (ok stats, w) = refl
  captured-sources id (err source_not_found, w) = refl
  captured-sources id (err source_disabled, w) = refl
  captured-sources id (err stats_conflict, w) = refl
  captured-sources id (err uncaught, w) = refl

  pub collect_one_source-IsEnabled :
      (s : MonitorSource) (id : ℕ) (w : IngestWorld)
      → IsEnabled w.sources id
      → IsEnabled (collect_one_source (c s) s w).1.sources id
  unfolding collect_one_source
  collect_one_source-IsEnabled s id w enabled =
      subst (λ v. IsEnabled v.sources id)
        (sym (captured-sources s.id (collect_source (c s) s.id w)))
        (collect_source-IsEnabled (c s) s.id id w enabled)

  pub collected-OutcomeOf :
      (s : MonitorSource) (w : IngestWorld) (found : Option MonitorSource)
      → find_source s.id w.sources ≡ found
      → EnabledRow s.id found
      → (c s).run_id ≡ run_id
      → any (same_row run_id s.id) w.stats ≡ false
      → ((row : MonitorSource) → PlanAnswers ((c s).plan_for row))
      → OutcomeOf run_id s.id w (collect_one_source (c s) s w)
  collected-OutcomeOf s w none e enabled of_run new answers = absurd enabled
  collected-OutcomeOf s w (some row) e (same, on) of_run new answers =
      subst (λ r. OutcomeOf r s.id w (collect_one_source (c s) s w)) of_run
        (collect_one_source-OutcomeOf (c s) s row w e same on (rw (of_run, same) new) (answers row))

  row_of_other :
      (s t : MonitorSource) (stats : FetchStats) (rows : List FetchStats)
      → stats.monitor_source_id ≡ s.id
      → (s.id == t.id) ≡ false
      → any (same_row run_id t.id) rows ≡ false
      → any (same_row run_id t.id) (stats ∷ rows) ≡ false
  row_of_other s t stats rows own apart new = ground arith

  IsReady-kept :
      (s : MonitorSource) (rest : List MonitorSource) (w w' : IngestWorld) (stats : FetchStats)
      → ((id : ℕ) → IsEnabled w.sources id → IsEnabled w'.sources id)
      → w'.stats ≡ stats ∷ w.stats
      → stats.monitor_source_id ≡ s.id
      → All (λ t. (s.id == t.id) ≡ false) rest
      → All (IsReady run_id c w) rest
      → All (IsReady run_id c w') rest
  IsReady-kept s [] w w' stats keeps rows own apart ready = tt
  IsReady-kept s (t ∷ rest) w w' stats keeps rows own apart
        ((of_run, enabled, new, answers), ready) =
      (
        (
          of_run,
          keeps t.id enabled,
          subst (λ r. any (same_row run_id t.id) r ≡ false) (sym rows)
              (row_of_other s t stats w.stats own apart.0 new),
          answers,
        ),
        IsReady-kept s rest w w' stats keeps rows own apart.1 ready,
      )

  joined-AllCollected :
      (s : MonitorSource) (rest : List MonitorSource) (w : IngestWorld)
      (first : Result CollectError SourceOutcome × IngestWorld)
      (later : Result CollectError (List SourceOutcome) × IngestWorld)
      → OutcomeOf run_id s.id w first
      → AllCollected rest first.1 later
      → AllCollected (s ∷ rest) w (joined first later)
  joined-AllCollected s rest w (err e, w') later is_outcome others = absurd is_outcome
  joined-AllCollected s rest w (ok o, w') (err e, w'') is_outcome others = absurd others
  joined-AllCollected s rest w (ok o, w') (ok os, w'') is_outcome (number, rows, documents) =
      let (stats, row, _, _, _, _, _, _, added) = is_outcome in
      let one_more : length w'.stats ≡ length w.stats + 1 = ap length row ∙ omega arith in
      (omega arith, omega (arith, one_more), omega (arith, added))

  pub IsReady-after :
      (s : MonitorSource) (rest : List MonitorSource) (w : IngestWorld)
      (first : Result CollectError SourceOutcome × IngestWorld)
      → OutcomeOf run_id s.id w first
      → ((id : ℕ) → IsEnabled w.sources id → IsEnabled first.1.sources id)
      → All (λ t. (s.id == t.id) ≡ false) rest
      → All (IsReady run_id c w) rest
      → All (IsReady run_id c first.1) rest
  IsReady-after s rest w (err e, w') is_outcome keeps apart ready = absurd is_outcome
  IsReady-after s rest w (ok o, w') (stats, row, _, own, _, _, _, _, _) keeps apart ready =
      IsReady-kept s rest w w' stats keeps row own apart ready

-- For different enabled sources without a row for the run, whose plans' adapters answer, the loop
-- ends without an exception, with one outcome for each source; the ledger gains exactly one row for
-- each, and the documents grow by what the outcomes count together.
pub collect_all-AllCollected :
    (run_id : ℕ) (c : MonitorSource → Collection) (sources : List MonitorSource) (w : IngestWorld)
    → DistinctIds sources
    → All (IsReady run_id c w) sources
    → AllCollected sources w (collect_all c sources w)
unfolding collect_all
collect_all-AllCollected run_id c [] w distinct ready = (refl, omega arith, omega arith)
collect_all-AllCollected run_id c (s ∷ rest) w (apart, distinct)
      ((of_run, enabled, new, answers), ready) =
    let first = collect_one_source (c s) s w in
    let is_outcome =
      collected-OutcomeOf run_id c s w (find_source s.id w.sources) refl enabled of_run new
        answers in
    let later =
      IsReady-after run_id c s rest w first is_outcome
        (λ id. collect_one_source-IsEnabled run_id c s id w) apart ready in
    joined-AllCollected run_id c s rest w first (collect_all c rest first.1) is_outcome
      (collect_all-AllCollected run_id c rest first.1 distinct later)
