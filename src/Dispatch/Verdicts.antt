-- ===== src/Dispatch/Verdicts.antt =====
-- The ledger rows that the loop over the sources leaves, and the evaluation of such rows.
use mlsc.Base.{
  ℕ, ◌≡◌, ◌∙◌, refl, sym, ap, subst, Option, none, some, is_some, true, List, [], ◌∷◌, ◌==◌, Result,
  ok, err, All, inl, inr, Bool-cases, filter, update,
}
use mlsc.Models.{MonitorSource, FetchStats, AlertKind, SourceHealth}
use mlsc.Runs.{SourceOutcome}
use mlsc.Ingest.{IngestWorld, CollectError, Collection, find_source}
use mlsc.Health.{
  HealthWorld, kind_of, assessed, history_of, load, assessed, history_of, load, alerted, assess,
  assess_all,
}
use mlsc.Dispatch.{joined, collect_one_source, collect_all}
use mlsc.Dispatch.Rows.{EnabledRow, IsEnabled}
use mlsc.Dispatch.Outcomes.{OutcomeOf}
use mlsc.Dispatch.AllSources.{
  IsReady, DistinctIds, collected-OutcomeOf, IsReady-after, collect_one_source-IsEnabled,
}

-- Each ledger row of the run is one of an enabled source.
abbrev pub Covered : (run_id : ℕ) → List MonitorSource → List FetchStats → Type 0
Covered run_id sources stats =
    All (λ r. (r.run_id == run_id) ≡ true → IsEnabled sources r.monitor_source_id) stats

Covered-kept :
    (run_id : ℕ) (sources sources' : List MonitorSource) (stats : List FetchStats)
    → ((id : ℕ) → IsEnabled sources id → IsEnabled sources' id)
    → Covered run_id sources stats
    → Covered run_id sources' stats
Covered-kept run_id sources sources' [] keeps h = tt
Covered-kept run_id sources sources' (r ∷ rest) keeps h = (
  (λ own. keeps r.monitor_source_id (h.0 own)),
  Covered-kept run_id sources sources' rest keeps h.1,
)

module _ (run_id : ℕ) (c : MonitorSource → Collection) where
  one-Covered :
      (s : MonitorSource) (w : IngestWorld)
      (first : Result CollectError SourceOutcome × IngestWorld)
      → OutcomeOf run_id s.id w first
      → ((id : ℕ) → IsEnabled w.sources id → IsEnabled first.1.sources id)
      → IsEnabled w.sources s.id
      → Covered run_id w.sources w.stats
      → Covered run_id first.1.sources first.1.stats
  one-Covered s w (err e, w') is_outcome keeps enabled h = absurd is_outcome
  one-Covered s w (ok o, w') (stats, row, _, own, _, _, _, _, _) keeps enabled h =
      subst (Covered run_id w'.sources) (sym row) (
        (λ of_run. subst (IsEnabled w'.sources) (sym own) (keeps s.id enabled)),
        Covered-kept run_id w.sources w'.sources w.stats keeps h,
      )

  joined-world :
      (source_id : ℕ) (w : IngestWorld) (first : Result CollectError SourceOutcome × IngestWorld)
      (later : Result CollectError (List SourceOutcome) × IngestWorld)
      → OutcomeOf run_id source_id w first
      → (joined first later).1 ≡ later.1
  joined-world source_id w (err e, w') later is_outcome = absurd is_outcome
  joined-world source_id w (ok o, w') (err e, w'') is_outcome = refl
  joined-world source_id w (ok o, w') (ok os, w'') is_outcome = refl

  pub collect_all-Covered :
      (sources : List MonitorSource) (w : IngestWorld)
      → DistinctIds sources
      → All (IsReady run_id c w) sources
      → Covered run_id w.sources w.stats
      → Covered run_id (collect_all c sources w).1.sources (collect_all c sources w).1.stats
  unfolding collect_all
  collect_all-Covered [] w distinct ready h = h
  collect_all-Covered (s ∷ rest) w (apart, distinct) ((of_run, enabled, new, answers), ready) h =
      let first = collect_one_source (c s) s w in
      let keeps = λ (id : ℕ). collect_one_source-IsEnabled run_id c s id w in
      let is_outcome =
        collected-OutcomeOf run_id c s w (find_source s.id w.sources) refl enabled of_run new
          answers in
      let later = IsReady-after run_id c s rest w first is_outcome keeps apart ready in
      subst (λ v. Covered run_id v.sources v.stats)
        (sym (joined-world s.id w first (collect_all c rest first.1) is_outcome))
        (collect_all-Covered rest first.1 distinct later
          (one-Covered s w first is_outcome keeps enabled h))

-- The evaluation of rows whose sources are there.
alerted-returns :
    (stats : FetchStats) (saved : SourceHealth) (w : HealthWorld) (kind : Option AlertKind)
    (source : Option MonitorSource)
    → EnabledRow stats.monitor_source_id source
    → (w' : HealthWorld) × (alerted stats saved w kind source ≡ some w') × (w'.sources ≡ w.sources)
alerted-returns stats saved w none source enabled = (w, refl, refl)
alerted-returns stats saved w (some kind) none enabled = absurd enabled
alerted-returns stats saved w (some kind) (some source) enabled = (_, refl, refl)

assess-returns :
    (stats : FetchStats) (w : HealthWorld)
    → IsEnabled w.sources stats.monitor_source_id
    → (w' : HealthWorld) × (assess stats w ≡ some w') × (w'.sources ≡ w.sources)
unfolding assess
assess-returns stats w enabled =
    let saved =
      assessed w.now (history_of stats.monitor_source_id w.stats) stats
        (load stats.monitor_source_id w.health) in
    alerted-returns stats saved
      (record w { health = update w.health stats.monitor_source_id (some saved) })
      (kind_of saved.state) (find_source stats.monitor_source_id w.sources) enabled

assess_all-step :
    (stats : FetchStats) (rest : List FetchStats) (w w' : HealthWorld)
    → assess stats w ≡ some w'
    → assess_all (stats ∷ rest) w ≡ assess_all rest w'
unfolding assess_all
assess_all-step stats rest w w' one = rw (assess_all, one) refl

pub assess_all-returns :
    (run_id : ℕ) (rows : List FetchStats) (w : HealthWorld)
    → Covered run_id w.sources rows
    → is_some (assess_all (filter (λ s. s.run_id == run_id) rows) w) ≡ true
unfolding assess_all
assess_all-returns run_id [] w h = refl
assess_all-returns run_id (r ∷ rest) w h = elim (Bool-cases (r.run_id == run_id)) [
  | inr other ↦ rw other (assess_all-returns run_id rest w h.1)
  | inl own ↦
      let (w', one, same) = assess-returns r w (h.0 own) in
      rw own (
        ap is_some (assess_all-step r (filter (λ s. s.run_id == run_id) rest) w w' one)
        ∙ assess_all-returns run_id rest w' (subst (λ s. Covered run_id s rest) (sym same) h.1))
]
