-- ===== src/Ingest/Rows.antt =====
-- `_document_rows` of mlsc/tasks/ingest.py, the hashes of mlsc/pipeline/normalize.py, and
-- mlsc/repositories/documents.py. SHA-256 and the text of a rating are parameters.
pub mod Duplicates
use mlsc.Base.{
  Result, ok, err, length, ℕ, ◌+◌, suc, Option, none, some, Bool, true, false, ◌&&◌, List, [], ◌∷◌,
  ◌++◌, ◌==◌, any, if◌then◌else◌,
}
use mlsc.Models.{
  SourceName, play, appstore, discourse, news, rss, hackernews, MonitorSource, Document,
}
use mlsc.Ingest.Plan.{CollectedItem}

pub record Hashing : Type 0 where
  pub sha256 : List ℕ → ℕ
  pub rating_text : ℕ → List ℕ
  -- the identifier of the n-th row of this call
  pub uuid : ℕ → ℕ

-- `"\x1f".join(part or "" for part in parts)`
abbrev pub separator : ℕ
separator = 31

abbrev pub part_text : Option (List ℕ) → List ℕ
part_text none = []
part_text (some text) = text

abbrev pub hash_content : Hashing → Option (List ℕ) → Option (List ℕ) → ℕ
hash_content h a b = h.sha256 (part_text a ++ separator ∷ part_text b)

-- `item.body or item.title or None`
abbrev pub text_or : Option (List ℕ) → Option (List ℕ) → Option (List ℕ)
text_or (some (c ∷ s)) later = some (c ∷ s)
text_or _ later = later

abbrev pub rating_part : Hashing → Option ℕ → Option (List ℕ)
rating_part h none = none
rating_part h (some rating) = some (h.rating_text rating)

abbrev pub document_row :
    Hashing → (id : ℕ) → MonitorSource → CollectedItem → (author : List ℕ) → Document
document_row h id source item author =
    let body = text_or item.body (text_or item.title none) in
    record {
      id = id;
      monitor_id = source.monitor_id;
      source_name = source.source_name;
      external_id = item.external_id;
      entity_id = source.instance_key;
      url = item.url;
      author_hash = h.sha256 author;
      body = body;
      published_at = item.published_at;
      rating = item.rating;
      app_version = item.app_version;
      engagement = item.engagement;
      content_hash = hash_content h body (rating_part h item.rating);
    }

-- `_document_rows`: an item without an author handle makes `hash_author` raise.
unfoldable pub document_rows :
    Hashing → (n : ℕ) → MonitorSource → List CollectedItem → Option (List Document)
document_rows h n source [] = some []
document_rows h n source (item ∷ rest) =
    let rows = document_rows h (n + 1) source rest in
    elim item.author_handle [
      | none ↦ none
      | some author ↦ elim rows [
        | none ↦ none
        | some later ↦ some (document_row h (h.uuid n) source item author ∷ later)
      ]
    ]

abbrev pub same_source : SourceName → SourceName → Bool
same_source play play = true
same_source appstore appstore = true
same_source discourse discourse = true
same_source news news = true
same_source rss rss = true
same_source hackernews hackernews = true
same_source _ _ = false

-- The natural key, `uq_documents_natural_key`.
abbrev pub same_document : Document → Document → Bool
same_document a b =
    (a.monitor_id == b.monitor_id)
    && (same_source a.source_name b.source_name && (a.external_id == b.external_id))

-- What the statement does with a row that the table's unique constraint forbids.
pub data OnConflict : Type 0 where
  do_nothing raise_violation : OnConflict

pub data UniqueViolation : Type 0 where
  unique_violation : UniqueViolation

abbrev pub conflicting {ℓ} :
    {A : Type ℓ} → OnConflict → Result UniqueViolation A → Result UniqueViolation A
conflicting do_nothing skipped = skipped
conflicting raise_violation skipped = err unique_violation

abbrev pub returning :
    Document
    → Result UniqueViolation (List ℕ × List Document)
    → Result UniqueViolation (List ℕ × List Document)
returning row (err e) = err e
returning row (ok (ids, documents)) = ok (row.id ∷ ids, documents)

-- PostgreSQL's `INSERT … VALUES … RETURNING id` into a table with that constraint, row by row.
unfoldable pub insert_values :
    OnConflict → List Document → List Document → Result UniqueViolation (List ℕ × List Document)
insert_values on_conflict [] documents = ok ([], documents)
insert_values on_conflict (row ∷ rest) documents =
    let skipped = insert_values on_conflict rest documents in
    let later = insert_values on_conflict rest (row ∷ documents) in
    if any (same_document row) documents
    then (conflicting on_conflict skipped)
    else returning row later

-- `len(result.fetchall())`
abbrev pub fetched :
    Result UniqueViolation (List ℕ × List Document) → Result UniqueViolation (ℕ × List Document)
fetched (err e) = err e
fetched (ok (ids, documents)) = ok (length ids, documents)

-- `DocumentRepository.insert_ignoring_duplicates`
unfoldable pub insert_ignoring_duplicates :
    List Document → List Document → Result UniqueViolation (ℕ × List Document)
insert_ignoring_duplicates [] documents = ok (0, documents)
insert_ignoring_duplicates (row ∷ rest) documents =
    fetched (insert_values do_nothing (row ∷ rest) documents)
