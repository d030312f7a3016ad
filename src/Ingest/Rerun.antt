-- ===== src/Ingest/Rerun.antt =====
-- Collecting a source again for a run that has its row.
use mlsc.Base.{
  Option-cases, inl, inr, ◌≡◌, refl, sym, subst, inl, inr, ℕ, ◌-◌, Option, none, some, true, false,
  List, any, length, arith, Option-cases, Result, ok, err,
}
use mlsc.Models.{MonitorSource, FetchStats, Document}
use mlsc.Ingest.Plan.{SourcePlan, ConfigFailure}
use mlsc.Ingest.Rows.{document_rows}
use mlsc.Ingest.Loop.{FanOut, fan_out_start}
use mlsc.Ingest.Rows.Duplicates.{insert_new, insert-returns}
use mlsc.Ingest.{
  advanced, stats_conflict, IngestWorld, CollectError, persist_documents, same_row, write_stats,
  Collection, unplanned_stats, collected_stats, cursor_to_save, recorded, fanned_out, planned,
  find_source, collect_source,
}
use mlsc.Ingest.Ledger.{
  PlanAnswers, Authored, fan_out-Authored, document_rows-All, collect_source-enabled,
}

abbrev Rejected : IngestWorld → Result CollectError FetchStats × IngestWorld → Type 0
Rejected w (result, w') = (result ≡ err stats_conflict) × (w'.stats ≡ w.stats)

module _ (c : Collection) (source : MonitorSource) (w : IngestWorld)
    (old : any (same_row c.run_id source.id) w.stats ≡ true) where
  write_stats-old :
      (stats : FetchStats) (w' : IngestWorld)
      → stats.run_id ≡ c.run_id
      → stats.monitor_source_id ≡ source.id
      → w'.stats ≡ w.stats
      → write_stats stats w' ≡ (err stats_conflict, w')
  unfolding write_stats
  write_stats-old stats w' run id same = rw (write_stats, run, id, same) (rw old refl)

  recorded-Rejected :
      (plan : SourcePlan) (f : FanOut) (rows : List Document) (write_error : Option (List ℕ))
      → Rejected w (recorded c source plan f rows w write_error)
  unfolding persist_documents
  recorded-Rejected plan f rows (some text) =
      rw
        (write_stats-old (collected_stats c source plan f (length rows) 0 0 false _) w refl refl
          refl)
        (refl, refl)
  recorded-Rejected plan f rows none =
      let (kept, documents) = insert_new rows w.documents in
      let w' : IngestWorld = record w {
        documents = documents;
        sources = advanced rows source.id (cursor_to_save c source f) w.sources;
      } in
      rw (persist_documents, insert-returns rows w.documents)
        (rw
          (write_stats-old
            (collected_stats c source plan f (length rows) (length rows - kept) kept
              f.validation_failed f.error)
            w' refl refl refl)
          (refl, refl))

  planned-Rejected :
      (plan : Result ConfigFailure SourcePlan)
      → PlanAnswers plan
      → Rejected w (planned c source w plan)
  planned-Rejected (err failure) answers =
      rw (write_stats-old (unplanned_stats c source failure) w refl refl refl) (refl, refl)
  planned-Rejected (ok plan) answers =
      fanned_out-Rejected plan _
        (fan_out-Authored plan.cursor plan.adapters (fan_out_start source.daily_quota) answers tt)
    where
      fanned_out-Rejected :
          (plan : SourcePlan) (f : Option FanOut)
          → Authored f
          → Rejected w (fanned_out c source plan w f)
      fanned_out-Rejected plan none authored = absurd authored
      fanned_out-Rejected plan (some f) authored =
          elim (Option-cases (document_rows c.hashing 0 source f.items)) [
            | inl none_found ↦
                absurd (ground (arith, document_rows-All c.hashing 0 source f.items authored))
            | inr (rows, e) ↦ rw e (recorded-Rejected plan f rows c.write_error)
          ]

-- For an enabled source that has a row for this run already, and whose adapters answer, a further
-- collection raises, since the table's constraint rejects its row whatever was collected, and the
-- ledger stands as it was.
pub collect_source-again :
    (c : Collection) (source_id : ℕ) (source : MonitorSource) (w : IngestWorld)
    → find_source source_id w.sources ≡ some source
    → source.enabled ≡ true
    → any (same_row c.run_id source.id) w.stats ≡ true
    → PlanAnswers (c.plan_for source)
    → ((collect_source c source_id w).0 ≡ err stats_conflict)
      × ((collect_source c source_id w).1.stats ≡ w.stats)
collect_source-again c source_id source w found enabled old answers =
    subst (Rejected w) (sym (collect_source-enabled c source_id source w found enabled))
      (planned-Rejected c source w old (c.plan_for source) answers)
