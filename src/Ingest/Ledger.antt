-- ===== src/Ingest/Ledger.antt =====
-- The ledger row that `collect_source` writes.
use mlsc.Base.{
  ap, inl, inr, is_some, ◌≡◌, refl, sym, subst, inl, inr, ℕ, ◌+◌, ◌-◌, ◌≤◌, Option, none, some,
  true, false, List, [], ◌∷◌, All, All-append, any, length, arith, Result, ok, err, if◌then◌else◌,
}
use mlsc.Models.{MonitorSource, FetchStats, Document}
use mlsc.Ingest.Plan.{
  CollectedItem, Cursor, Fetched, page, adapter_failed, raised, Adapter, SourcePlan, ConfigFailure,
}
use mlsc.Ingest.Rows.{Hashing, document_rows}
use mlsc.Ingest.Rows.Duplicates.{insert_new, insert-length, insert-returns}
use mlsc.Ingest.Loop.{FanOut, fan_out_start, with_page, fan_out}
use mlsc.Ingest.Loop.Steps.{fan_out-Round}
use mlsc.Ingest.{
  source_disabled, IngestWorld, CollectError, truthy, advanced, persist_documents, same_row,
  write_stats, Collection, unplanned_stats, collected_stats, cursor_to_save, recorded, with_rows,
  fanned_out, planned, find_source, collect_source,
}

-- An adapter answers if it raises nothing but its own failures, and its items have an author handle.
abbrev pub HasAuthor : CollectedItem → Type 0
HasAuthor item = is_some item.author_handle ≡ true

abbrev pub IsAnswer : Fetched → Type 0
IsAnswer (page p) = All HasAuthor p.items
IsAnswer (adapter_failed failure) = Unit
IsAnswer raised = ⊥

abbrev pub Answers : Adapter → Type 0
Answers adapter = (cursor : Cursor) (remaining : ℕ) → IsAnswer (adapter cursor remaining)

abbrev pub PlanAnswers : Result ConfigFailure SourcePlan → Type 0
PlanAnswers (ok plan) = All Answers plan.adapters
PlanAnswers (err failure) = Unit

abbrev pub Authored : Option FanOut → Type 0
Authored none = ⊥
Authored (some f) = All HasAuthor f.items

pub fan_out-Authored :
    (cursor : Cursor) (adapters : List Adapter) (f : FanOut)
    → All Answers adapters
    → All HasAuthor f.items
    → Authored (fan_out cursor adapters f)
unfolding fan_out
fan_out-Authored cursor [] f answers authored = authored
fan_out-Authored cursor (adapter ∷ rest) f answers authored =
    elim (fan_out-Round cursor adapter rest f) [
      | inl (spent, e) ↦ subst Authored (sym e) authored
      | inr (inl (p, fetched, e)) ↦
          let more : All HasAuthor p.items =
            subst IsAnswer fetched (answers.0 cursor f.remaining) in
          subst Authored (sym e) (
            fan_out-Authored cursor rest (with_page p f) answers.1
              (All-append HasAuthor f.items p.items authored more))
      | inr (inr (inl (failure, fetched, e))) ↦ subst Authored (sym e) authored
      | inr (inr (inr (fetched, e))) ↦
          absurd (subst IsAnswer fetched (answers.0 cursor f.remaining))
    ]

pub document_rows-All :
    (h : Hashing) (n : ℕ) (source : MonitorSource) (items : List CollectedItem)
    → All HasAuthor items
    → is_some (document_rows h n source items) ≡ true
unfolding document_rows
document_rows-All h n source [] authored = refl
document_rows-All h n source (item ∷ rest) authored =
    ground (arith, document_rows-All h (n + 1) source rest)

-- One row was added to the ledger, for this run and source; it counts the documents that were added,
-- and accounts for every attempted one unless it names an error; with an error no cursor moved.
abbrev pub Recorded :
    (run_id source_id : ℕ) → IngestWorld → Result CollectError FetchStats × IngestWorld → Type 0
Recorded run_id source_id w (err e, w') = ⊥
Recorded run_id source_id w (ok stats, w') =
    (w'.stats ≡ stats ∷ w.stats)
    × (stats.run_id ≡ run_id)
    × (stats.monitor_source_id ≡ source_id)
    × (length w'.documents ≡ length w.documents + stats.kept)
    × (stats.kept + stats.duplicates ≤ stats.attempted)
    × (truthy stats.error ≡ false → stats.kept + stats.duplicates ≡ stats.attempted)
    × (truthy stats.error ≡ true → w'.sources ≡ w.sources)

advanced-none :
    (rows : List Document) (source_id : ℕ) (sources : List MonitorSource)
    → advanced rows source_id none sources ≡ sources
advanced-none [] source_id sources = refl
advanced-none (row ∷ rest) source_id sources = refl

module _ (c : Collection) (source : MonitorSource) (w : IngestWorld)
    (new : any (same_row c.run_id source.id) w.stats ≡ false) where
  write_stats-new :
      (stats : FetchStats) (w' : IngestWorld)
      → stats.run_id ≡ c.run_id
      → stats.monitor_source_id ≡ source.id
      → w'.stats ≡ w.stats
      → write_stats stats w' ≡ (ok stats, record w' { stats = stats ∷ w.stats })
  unfolding write_stats
  write_stats-new stats w' run id same = rw (write_stats, run, id, same) (rw new refl)

  planned-Recorded-err :
      (failure : ConfigFailure) → Recorded c.run_id source.id w (planned c source w (err failure))
  planned-Recorded-err failure =
      rw (write_stats-new (unplanned_stats c source failure) w refl refl refl)
        (refl, refl, refl, omega arith, omega arith, λ e. refl, λ e. refl)

  recorded-Recorded :
      (plan : SourcePlan) (f : FanOut) (rows : List Document) (write_error : Option (List ℕ))
      → Recorded c.run_id source.id w (recorded c source plan f rows w write_error)
  unfolding persist_documents
  recorded-Recorded plan f rows (some text) =
      rw
        (write_stats-new (collected_stats c source plan f (length rows) 0 0 false _) w refl refl
          refl)
        (refl, refl, refl, omega arith, omega arith, λ e. cc, λ e. refl)
  recorded-Recorded plan f rows none =
      let (kept, documents) = insert_new rows w.documents in
      let w' : IngestWorld = record w {
        documents = documents;
        sources = advanced rows source.id (cursor_to_save c source f) w.sources;
      } in
      let (few, grown) = insert-length rows w.documents in
      rw (persist_documents, insert-returns rows w.documents)
        (rw
          (write_stats-new
            (collected_stats c source plan f (length rows) (length rows - kept) kept
              f.validation_failed f.error)
            w' refl refl refl)
          (
            refl,
            refl,
            refl,
            grown,
            omega arith,
            λ e. omega arith,
            λ e. rw e (advanced-none rows source.id w.sources),
          ))

  with_rows-Recorded :
      (plan : SourcePlan) (f : FanOut) (rows : Option (List Document))
      → is_some rows ≡ true
      → Recorded c.run_id source.id w (with_rows c source plan f w rows)
  with_rows-Recorded plan f none there = absurd cc
  with_rows-Recorded plan f (some rows) there = recorded-Recorded plan f rows c.write_error

  fanned_out-Recorded :
      (plan : SourcePlan) (f : Option FanOut)
      → Authored f
      → Recorded c.run_id source.id w (fanned_out c source plan w f)
  fanned_out-Recorded plan none authored = absurd authored
  fanned_out-Recorded plan (some f) authored =
      with_rows-Recorded plan f _ (document_rows-All c.hashing 0 source f.items authored)

  planned-Recorded :
      (plan : Result ConfigFailure SourcePlan)
      → PlanAnswers plan
      → Recorded c.run_id source.id w (planned c source w plan)
  planned-Recorded (err failure) answers = planned-Recorded-err failure
  planned-Recorded (ok plan) answers =
      fanned_out-Recorded plan _
        (fan_out-Authored plan.cursor plan.adapters (fan_out_start source.daily_quota) answers tt)

pub collect_source-enabled :
    (c : Collection) (source_id : ℕ) (source : MonitorSource) (w : IngestWorld)
    → find_source source_id w.sources ≡ some source
    → source.enabled ≡ true
    → collect_source c source_id w ≡ planned c source w (c.plan_for source)
unfolding collect_source
collect_source-enabled c source_id source w found enabled =
    rw (collect_source, found)
      (ap (λ b. if b then planned c source w (c.plan_for source) else (err source_disabled, w))
        enabled)

-- For an enabled source without a row for this run, whose adapters answer, exactly one row is written,
-- on every outcome: a plan that cannot be built, a failed fetch, a rejected write and a success. The
-- row counts the documents that were added, accounts for every attempted one unless it names an error,
-- and with an error the source's cursor stands as it was.
pub collect_source-Recorded :
    (c : Collection) (source_id : ℕ) (source : MonitorSource) (w : IngestWorld)
    → find_source source_id w.sources ≡ some source
    → source.enabled ≡ true
    → any (same_row c.run_id source.id) w.stats ≡ false
    → PlanAnswers (c.plan_for source)
    → Recorded c.run_id source.id w (collect_source c source_id w)
collect_source-Recorded c source_id source w found enabled new answers =
    subst (Recorded c.run_id source.id w)
      (sym (collect_source-enabled c source_id source w found enabled))
      (planned-Recorded c source w new (c.plan_for source) answers)
