-- ===== src/Ingest/Tests.antt =====
-- Collections on small tables.
use mlsc.Base.{
  List, All, zero, suc, ℕ, ◌≤◌, ◌≡◌, refl, none, some, true, false, [], ◌∷◌, length, ok, err, arith,
}
use mlsc.Models.{MonitorSource, play, Document}
use mlsc.Fetch.Contracts.{transport_failed}
use mlsc.Ingest.Plan.{CollectedItem, Page, page, adapter_failed, fetch_failed, Adapter, SourcePlan}
use mlsc.Ingest.Rows.{
  insert_values, Hashing, insert_ignoring_duplicates, document_row, document_rows,
}
use mlsc.Ingest.Loop.{fan_out_start, with_page, fan_out, newer_cursor}
use mlsc.Ingest.Cursors.{Collects, items_of, NotBehind, fan_out-le_cursor}
use mlsc.Ingest.Quota.{Respects, fan_out-le_quota}
use mlsc.Ingest.Ledger.{Answers, Recorded, collect_source-Recorded}
use mlsc.Ingest.Rerun.{collect_source-again}
use mlsc.Ingest.{
  IngestWorld, Collection, stats_conflict, collect_source, find_source, persist_documents,
  write_stats, save_cursor,
}

abbrev source : MonitorSource
source = record {
  id = 4;
  monitor_id = 1;
  source_name = play;
  instance_key = 30;
  config = 0;
  daily_quota = 2;
  enabled = true;
  last_external_id = none;
  last_published_at = some 5;
}

abbrev item : ℕ → CollectedItem
item external_id = record {
  external_id = external_id;
  author_handle = some (97 ∷ []);
  title = none;
  body = some (104 ∷ 105 ∷ []);
  published_at = 9;
  url = none;
  rating = some 5;
  app_version = none;
  engagement = none;
}

abbrev one_item : Page
one_item = record {
  items = item 11 ∷ [];
  new_cursor = record { last_external_id = some 11; last_published_at = some 9 };
  quota_reached = false;
}

-- An adapter with one item, if it is asked for any.
abbrev adapter : Adapter
adapter cursor zero = adapter_failed (fetch_failed transport_failed [])
adapter cursor (suc n) = page one_item

abbrev plan : SourcePlan
plan = record {
  adapters = adapter ∷ [];
  cursor = record { last_external_id = none; last_published_at = some 5 };
  library_version = 1;
}

abbrev hashing : Hashing
hashing = record { sha256 = length; rating_text = λ r. r ∷ []; uuid = λ n. n }

abbrev collection : Collection
collection = record {
  plan_for = λ _. ok plan;
  hashing = hashing;
  run_id = 3;
  stats_id = 8;
  duration_seconds = 2;
  write_error = none;
  violation_text = [];
}

abbrev world : IngestWorld
world = record { sources = source ∷ []; documents = []; stats = [] }

abbrev row : Document
row = document_row hashing 0 source (item 11) (97 ∷ [])

adapter-Answers : Answers adapter
adapter-Answers cursor zero = tt
adapter-Answers cursor (suc n) = (refl, tt)

adapter-Respects : Respects adapter
adapter-Respects cursor zero some_left = tt
adapter-Respects cursor (suc n) some_left = omega arith

inserted_once : insert_ignoring_duplicates (row ∷ row ∷ []) [] ≡ ok (1, row ∷ [])
unfolding insert_ignoring_duplicates insert_values
inserted_once = refl

collect_source-Recorded_example : Recorded 3 4 world (collect_source collection 4 world)
unfolding find_source
collect_source-Recorded_example =
    collect_source-Recorded collection 4 source world refl refl refl (adapter-Answers, tt)

fan_out-le_quota_example : length (item 11 ∷ []) ≤ 2
unfolding fan_out newer_cursor
fan_out-le_quota_example =
    fan_out-le_quota 2 plan.cursor plan.adapters (with_page one_item (fan_out_start 2))
      (adapter-Respects, tt) refl

fan_out-le_cursor_example :
    (pages : List Page) × Collects plan.cursor
      (with_page one_item (fan_out_start 2))
      plan.adapters
      (fan_out_start 2)
      pages
    × ((item 11 ∷ []) ≡ items_of pages)
    × All (λ p. NotBehind (some 9) p.new_cursor.last_published_at) pages
unfolding fan_out newer_cursor
fan_out-le_cursor_example =
    fan_out-le_cursor plan.cursor plan.adapters 2 (with_page one_item (fan_out_start 2)) refl

abbrev recorded_world : IngestWorld
recorded_world = (collect_source collection 4 world).1

collect_source-again_example :
    ((collect_source collection 4 recorded_world).0 ≡ err stats_conflict)
    × ((collect_source collection 4 recorded_world).1.stats ≡ recorded_world.stats)
unfolding collect_source find_source fan_out newer_cursor document_rows persist_documents
    write_stats insert_ignoring_duplicates insert_values save_cursor
collect_source-again_example =
    collect_source-again collection 4
      (record source { last_external_id = some 11; last_published_at = some 9 }) recorded_world refl
      refl refl (adapter-Answers, tt)
