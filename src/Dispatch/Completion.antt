-- ===== src/Dispatch/Completion.antt =====
-- `dispatch_run` from end to end.
use mlsc.Base.{
  ◌⊎◌, false, Bool-cases, found_cases, ℕ, ◌+◌, ◌≡◌, refl, ap, Option, none, some, is_some, true,
  List, [], ◌∷◌, ◌==◌, Result, ok, err, All, inl, inr, sum_by, length,
}
use mlsc.Models.{MonitorSource, RunStatus, IngestionRun}
use mlsc.Locks.{current_token}
use mlsc.Runs.{
  SourceOutcome, enabled_sources, classify, run_key, find_run, finished, finish_run, finalise,
  release_current,
}
use mlsc.Runs.Finalisation.{release_current-frees}
use mlsc.Ingest.{IngestWorld, CollectError, Collection}
use mlsc.Health.{HealthWorld, evaluate_source_health}
use mlsc.Dispatch.{collect_all}
use mlsc.Dispatch.AllSources.{IsReady, DistinctIds, AllCollected, collect_all-AllCollected}
use mlsc.Dispatch.Verdicts.{Covered, collect_all-Covered, assess_all-returns}
use mlsc.Dispatch.Run.{
  System, DispatchError, Pipeline, piped, followed, ingest_part, with_ingest, health_part,
  any_source, has_data, evaluated, gathered, dispatch_run,
}

find_run-finished :
    (id : ℕ) (status : RunStatus) (now : ℕ) (runs : List IngestionRun) (run : IngestionRun)
    → find_run id runs ≡ some run
    → find_run id (finish_run id status now runs) ≡ some (finished status now run)
find_run-finished id status now [] run found = absurd cc
find_run-finished id status now (r ∷ rest) run found =
    elim (found_cases (r.id == id) r run (find_run id rest) found) [
      | inl (here, same) ↦ rw (here, here) (ap (λ x. some (finished status now x)) same)
      | inr (there, later) ↦ rw (there, there) (find_run-finished id status now rest run later)
    ]

evaluate-returns :
    (run_id : ℕ) (w : HealthWorld)
    → Covered run_id w.sources w.stats
    → is_some (evaluate_source_health run_id w) ≡ true
unfolding evaluate_source_health
evaluate-returns run_id w h = assess_all-returns run_id w.stats w h

-- The ledger row and the documents of every source that was collected, the run finalised with the status
-- of their outcomes, the verdicts that the ledger gives, and the lock free: what the pipeline is given.
abbrev pub Closed :
    (run_id finalised_at assessed_at : ℕ)
    → List MonitorSource
    → IngestionRun
    → System
    → List SourceOutcome
    → IngestWorld
    → System
    → Type 0
Closed run_id finalised_at assessed_at sources run w outcomes i closed =
    (h : HealthWorld) × (evaluate_source_health run_id (record {
      sources = i.sources;
      stats = i.stats;
      health = w.health;
      alerts = w.alerts;
      now = assessed_at;
    })
      ≡ some h)
    × (closed.health ≡ h.health)
    × (closed.alerts ≡ h.alerts)
    × (closed.stats ≡ i.stats)
    × (closed.documents ≡ i.documents)
    × (find_run run_id closed.run_world.runs
        ≡ some (finished (classify outcomes (any_source sources)) finalised_at run))
    × (current_token finalised_at (run_key run) closed.run_world.locks ≡ none)

-- The end: the pipeline's, if the run has data.
abbrev pub Followed :
    Pipeline
    → (run_id monitor_id : ℕ) → RunStatus
    → System
    → Result DispatchError (Unit {0}) × System
    → Type 0
Followed pipeline run_id monitor_id status closed result =
    ((has_data status ≡ true) × (result ≡ piped (pipeline run_id monitor_id closed)))
    ⊎ ((has_data status ≡ false) × (result ≡ (ok tt, closed)))

abbrev pub Completed :
    (MonitorSource → Collection)
    → Pipeline
    → (run_id monitor_id finalised_at assessed_at : ℕ) → IngestionRun
    → System
    → Result DispatchError (Unit {0}) × System
    → Type 0
Completed c pipeline run_id monitor_id finalised_at assessed_at run w result =
    let sources = enabled_sources monitor_id w.run_world in
    (outcomes : List SourceOutcome) × (i : IngestWorld) × (closed : System) × (collect_all c sources
        (ingest_part w)
      ≡ (ok outcomes, i))
    × (length outcomes ≡ length sources)
    × (length i.stats ≡ length w.stats + length sources)
    × (length i.documents ≡ length w.documents + sum_by (λ o. o.kept) outcomes)
    × Closed run_id finalised_at assessed_at sources run w outcomes i closed
    × Followed pipeline run_id monitor_id (classify outcomes (any_source sources)) closed result

module _ (c : MonitorSource → Collection) (pipeline : Pipeline)
    (run_id monitor_id finalised_at assessed_at : ℕ) (run : IngestionRun) (w : System)
    (found : find_run run_id w.run_world.runs ≡ some run) where
  abbrev sources_of : List MonitorSource
  sources_of = enabled_sources monitor_id w.run_world

  followed-Followed :
      (status : RunStatus) (closed : System)
      → Followed pipeline run_id monitor_id status closed
          (followed pipeline run_id monitor_id (has_data status) closed)
  followed-Followed status closed = elim (Bool-cases (has_data status)) [
    | inl data_there ↦ inl (data_there, rw data_there refl)
    | inr no_data ↦ inr (no_data, rw no_data refl)
  ]

  -- The state in which the health is assessed.
  abbrev assessed_world : List SourceOutcome → IngestWorld → System
  assessed_world outcomes i =
      let status = classify outcomes (any_source sources_of) in
      record (with_ingest i w) {
        run_world = record ((with_ingest i w).run_world) {
          now = finalised_at;
          runs = finish_run run_id status finalised_at w.run_world.runs;
          locks = release_current finalised_at (run_key run) w.run_world.locks;
        };
      }

  evaluated-Completed :
      (outcomes : List SourceOutcome) (i : IngestWorld) (h : Option HealthWorld)
      → collect_all c sources_of (ingest_part w) ≡ (ok outcomes, i)
      → AllCollected sources_of (ingest_part w) (ok outcomes, i)
      → evaluate_source_health run_id (health_part assessed_at (assessed_world outcomes i)) ≡ h
      → is_some h ≡ true
      → Completed c pipeline run_id monitor_id finalised_at assessed_at run w (
          evaluated pipeline run_id monitor_id
            (classify outcomes (any_source sources_of))
            (assessed_world outcomes i)
            h)
  evaluated-Completed outcomes i none collected counts verdicts there = absurd cc
  evaluated-Completed outcomes i (some h) collected (number, rows, documents) verdicts there =
      let status = classify outcomes (any_source sources_of) in
      let closed : System = record (assessed_world outcomes i) {
        health = h.health;
        alerts = h.alerts;
      } in
      (
        outcomes,
        i,
        closed,
        collected,
        number,
        rows,
        documents,
        (
          h,
          verdicts,
          refl,
          refl,
          refl,
          refl,
          find_run-finished run_id status finalised_at w.run_world.runs run found,
          release_current-frees finalised_at (run_key run) w.run_world.locks,
        ),
        followed-Followed status closed,
      )

  finalised-Completed :
      (outcomes : List SourceOutcome) (i : IngestWorld)
      → collect_all c sources_of (ingest_part w) ≡ (ok outcomes, i)
      → AllCollected sources_of (ingest_part w) (ok outcomes, i)
      → Covered run_id i.sources i.stats
      → Completed c pipeline run_id monitor_id finalised_at assessed_at run w (
          gathered pipeline run_id monitor_id finalised_at assessed_at sources_of w
            (ok outcomes, i))
  unfolding finalise
  finalised-Completed outcomes i collected counts covered =
      rw (finalise, found)
        (evaluated-Completed outcomes i _ collected counts refl (evaluate-returns run_id _ covered))

  gathered-Completed :
      (r : Result CollectError (List SourceOutcome) × IngestWorld)
      → collect_all c sources_of (ingest_part w) ≡ r
      → AllCollected sources_of (ingest_part w) r
      → Covered run_id r.1.sources r.1.stats
      → Completed c pipeline run_id monitor_id finalised_at assessed_at run w
          (gathered pipeline run_id monitor_id finalised_at assessed_at sources_of w r)
  gathered-Completed (err e, i) collected counts covered = absurd counts
  gathered-Completed (ok outcomes, i) collected counts covered =
      finalised-Completed outcomes i collected counts covered

-- If the run has its row, its monitor's enabled sources differ and have no ledger row for the run yet,
-- their plans' adapters answer, and every ledger row of the run is one of an enabled source, then
-- everything before the downstream pipeline succeeds: the loop over the sources returns an outcome and
-- leaves one more ledger row for each, and the documents that they count; the run is finalised with the
-- status of exactly these outcomes, its lock is free, and the sources' health is what the evaluation
-- makes of the ledger. If that status is complete or partial, `dispatch_run` then ends as the pipeline
-- does that is run on this state, with the exception that it raises if it does; otherwise it returns and
-- leaves this state.
pub dispatch_run-Completed :
    (c : MonitorSource → Collection) (pipeline : Pipeline)
    (run_id monitor_id finalised_at assessed_at : ℕ) (w : System) (run : IngestionRun)
    → find_run run_id w.run_world.runs ≡ some run
    → DistinctIds (enabled_sources monitor_id w.run_world)
    → All (IsReady run_id c (ingest_part w)) (enabled_sources monitor_id w.run_world)
    → Covered run_id w.run_world.sources w.stats
    → Completed c pipeline run_id monitor_id finalised_at assessed_at run w
        (dispatch_run c pipeline run_id monitor_id finalised_at assessed_at w)
unfolding dispatch_run
dispatch_run-Completed c pipeline run_id monitor_id finalised_at assessed_at w run found distinct
      ready covered =
    let sources = enabled_sources monitor_id w.run_world in
    gathered-Completed c pipeline run_id monitor_id finalised_at assessed_at run w found
      (collect_all c sources (ingest_part w)) refl
      (collect_all-AllCollected run_id c sources (ingest_part w) distinct ready)
      (collect_all-Covered run_id c sources (ingest_part w) distinct ready covered)
