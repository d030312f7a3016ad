-- ===== src/Dispatch/Rows.antt =====
-- Collecting one source leaves the rows of all sources, and whether they are enabled, in place.
use mlsc.Base.{
  map, ap, ◌∙◌, ◌≡◌, refl, sym, subst, inl, inr, ℕ, Option, none, some, Bool, true, false, List, [],
  ◌∷◌, arith, Result, ok, err, if◌then◌else◌, ◌==◌, Bool-cases,
}
use mlsc.Models.{MonitorSource, FetchStats, Document}
use mlsc.Ingest.Plan.{Cursor, SourcePlan, ConfigFailure}
use mlsc.Ingest.Loop.{FanOut, fan_out, fan_out_start}
use mlsc.Ingest.Rows.{document_rows}
use mlsc.Ingest.Rows.Duplicates.{insert-returns}
use mlsc.Ingest.{
  source_disabled, IngestWorld, CollectError, advanced, save_cursor, with_cursor, persist_documents,
  write_stats, Collection, cursor_to_save, recorded, with_rows, fanned_out, planned, loaded,
  find_source, collect_source,
}

abbrev pub EnabledRow : ℕ → Option MonitorSource → Type 0
EnabledRow id none = ⊥
EnabledRow id (some row) = (row.id ≡ id) × (row.enabled ≡ true)

abbrev pub IsEnabled : List MonitorSource → ℕ → Type 0
IsEnabled sources id = EnabledRow id (find_source id sources)

find_source-here :
    (id : ℕ) (s : MonitorSource) (rest : List MonitorSource)
    → (s.id == id) ≡ true
    → find_source id (s ∷ rest) ≡ some s
unfolding find_source
find_source-here id s rest here = rw here refl

find_source-there :
    (id : ℕ) (s : MonitorSource) (rest : List MonitorSource)
    → (s.id == id) ≡ false
    → find_source id (s ∷ rest) ≡ find_source id rest
unfolding find_source
find_source-there id s rest there = rw there refl

abbrev moved : ℕ → Cursor → MonitorSource → MonitorSource
moved id cursor s = if s.id == id then with_cursor cursor s else s

moved-same :
    (id : ℕ) (cursor : Cursor) (s : MonitorSource)
    → ((moved id cursor s).id ≡ s.id) × ((moved id cursor s).enabled ≡ s.enabled)
moved-same id cursor s = elim (Bool-cases (s.id == id)) [
  | inl own ↦ rw own (refl, refl)
  | inr other ↦ rw other (refl, refl)
]

save_cursor-IsEnabled :
    (source_id id : ℕ) (cursor : Cursor) (sources : List MonitorSource)
    → IsEnabled sources id
    → IsEnabled (save_cursor source_id cursor sources) id
unfolding save_cursor
save_cursor-IsEnabled source_id id cursor [] enabled = enabled
save_cursor-IsEnabled source_id id cursor (s ∷ rest) enabled =
    let (same_id, same_switch) = moved-same source_id cursor s in
    let later = map (moved source_id cursor) rest in
    elim (Bool-cases (s.id == id)) [
      | inl here ↦
          let (is_id, on) = subst (EnabledRow id) (find_source-here id s rest here) enabled in
          subst (EnabledRow id)
            (sym (
              find_source-here id (moved source_id cursor s) later
                (ap (λ k. k == id) same_id ∙ here)))
            (same_id ∙ is_id, same_switch ∙ on)
      | inr there ↦
          subst (EnabledRow id)
            (sym (
              find_source-there id (moved source_id cursor s) later
                (ap (λ k. k == id) same_id ∙ there)))
            (save_cursor-IsEnabled source_id id cursor rest
              (subst (EnabledRow id) (find_source-there id s rest there) enabled))
    ]

advanced-IsEnabled :
    (rows : List Document) (source_id id : ℕ) (cursor : Option Cursor)
    (sources : List MonitorSource)
    → IsEnabled sources id
    → IsEnabled (advanced rows source_id cursor sources) id
advanced-IsEnabled [] source_id id cursor sources enabled = enabled
advanced-IsEnabled (row ∷ rest) source_id id none sources enabled = enabled
advanced-IsEnabled (row ∷ rest) source_id id (some cursor) sources enabled =
    save_cursor-IsEnabled source_id id cursor sources enabled

write_stats-sources :
    (stats : FetchStats) (w : IngestWorld) → (write_stats stats w).1.sources ≡ w.sources
unfolding write_stats
write_stats-sources stats w = ground arith

module _ (c : Collection) (source : MonitorSource) (w : IngestWorld) (id : ℕ)
    (enabled : IsEnabled w.sources id) where
  abbrev Kept : Result CollectError FetchStats × IngestWorld → Type 0
  Kept (result, w') = IsEnabled w'.sources id

  recorded-Kept :
      (plan : SourcePlan) (f : FanOut) (rows : List Document) (write_error : Option (List ℕ))
      → Kept (recorded c source plan f rows w write_error)
  unfolding persist_documents
  recorded-Kept plan f rows (some text) =
      subst (λ s. IsEnabled s id) (sym (write_stats-sources _ w)) enabled
  recorded-Kept plan f rows none =
      rw (persist_documents, insert-returns rows w.documents)
        (subst (λ s. IsEnabled s id) (sym (write_stats-sources _ _))
          (advanced-IsEnabled rows source.id id (cursor_to_save c source f) w.sources enabled))

  with_rows-Kept :
      (plan : SourcePlan) (f : FanOut) (rows : Option (List Document))
      → Kept (with_rows c source plan f w rows)
  with_rows-Kept plan f none = enabled
  with_rows-Kept plan f (some rows) = recorded-Kept plan f rows c.write_error

  planned-Kept : (plan : Result ConfigFailure SourcePlan) → Kept (planned c source w plan)
  planned-Kept (err failure) = subst (λ s. IsEnabled s id) (sym (write_stats-sources _ w)) enabled
  planned-Kept (ok plan) =
      fanned_out-Kept plan (fan_out plan.cursor plan.adapters (fan_out_start source.daily_quota))
    where
      fanned_out-Kept :
          (plan : SourcePlan) (f : Option FanOut) → Kept (fanned_out c source plan w f)
      fanned_out-Kept plan none = enabled
      fanned_out-Kept plan (some f) =
          with_rows-Kept plan f (document_rows c.hashing 0 source f.items)

pub collect_source-IsEnabled :
    (c : Collection) (source_id id : ℕ) (w : IngestWorld)
    → IsEnabled w.sources id
    → IsEnabled (collect_source c source_id w).1.sources id
unfolding collect_source
collect_source-IsEnabled c source_id id w enabled = loaded-Kept (find_source source_id w.sources)
  where
    loaded-Kept : (source : Option MonitorSource) → IsEnabled (loaded c w source).1.sources id
    loaded-Kept none = enabled
    loaded-Kept (some source) = either source.enabled
      where
        either :
            (on : Bool)
            → IsEnabled
                (if on
                  then planned c source w (c.plan_for source)
                  else (err source_disabled, w)).1.sources
                id
        either true = planned-Kept c source w id enabled (c.plan_for source)
        either false = enabled
