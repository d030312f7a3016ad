-- ===== src/Documents.antt =====
-- mlsc/repositories/document_browser.py: the cursor's text and `list_documents`, one page of the
-- documents that pass the filters. The codecs of Python's library are parameters; the database's query
-- is written out, its `ORDER BY` as an insertion sort. A document has at most one assignment, by the
-- table's unique constraint, so that the outer join has one row for each document.
pub mod Cursor
pub mod Order
pub mod Paging
pub mod Pages
mod Tests
use mlsc.Base.{
  ℕ, zero, suc, ◌+◌, Option, none, some, Bool, true, false, ◌&&◌, ◌||◌, List, [], ◌∷◌, ◌++◌, map,
  ◌==◌, ltb, leb, Result, ok, err, if◌then◌else◌, filter, length, take,
}
use mlsc.Models.{SourceName, Document}
use mlsc.Models.Topics.{Assignment}
use mlsc.Ingest.Rows.{same_source}

-- `datetime.isoformat` and back, `str` of a UUID and back, and base64 with its character encodings.
pub record Codecs : Type 0 where
  pub isoformat : ℕ → List ℕ
  pub fromisoformat : List ℕ → Option ℕ
  pub uuid_text : ℕ → List ℕ
  pub uuid_of : List ℕ → Option ℕ
  pub encode64 : List ℕ → List ℕ
  pub decode64 : List ℕ → Option (List ℕ)
  -- the moment at which a day begins, to which the database casts a date
  pub midnight : ℕ → ℕ

-- `CursorInvalid`, and the `IndexError` of `page[-1]`.
pub data BrowseError : Type 0 where
  cursor_invalid index_error : BrowseError

abbrev pub bar : ℕ
bar = 124

unfoldable pub encode_cursor : Codecs → (published_at document_id : ℕ) → List ℕ
encode_cursor c published_at document_id =
    c.encode64 (c.isoformat published_at ++ bar ∷ c.uuid_text document_id)

-- `raw.split("|", 1)`: both parts, or nothing if there is only one.
unfoldable pub split_bar : List ℕ → Option (List ℕ × List ℕ)
split_bar [] = none
split_bar (x ∷ xs) = elim (x == bar) [
  | true ↦ some ([], xs)
  | false ↦ elim (split_bar xs) [ none ↦ none | some (left, right) ↦ some (x ∷ left, right) ]
]

abbrev pub both : Option ℕ → Option ℕ → Result BrowseError (ℕ × ℕ)
both (some a) (some b) = ok (a, b)
both _ _ = err cursor_invalid

unfoldable pub decode_cursor : Codecs → List ℕ → Result BrowseError (ℕ × ℕ)
decode_cursor c cursor = elim (c.decode64 cursor) [
  | none ↦ err cursor_invalid
  | some raw ↦ elim (split_bar raw) [
    | none ↦ err cursor_invalid
    | some (left, right) ↦ both (c.fromisoformat left) (c.uuid_of right)
  ]
]

-- A document and its topic.
abbrev pub Row : Type 0
Row = Document × Option ℕ

pub record Filters : Type 0 where
  pub monitor_id : ℕ
  pub topic_id : Option ℕ
  pub source : Option SourceName
  pub first_day : Option ℕ
  pub last_day : Option ℕ

abbrev pub topic_of : (document_id : ℕ) → List Assignment → Option ℕ
topic_of document_id [] = none
topic_of document_id (a ∷ rest) =
    let later = topic_of document_id rest in
    if a.document_id == document_id then some a.topic_id else later

-- The outer join.
abbrev pub joined : List Assignment → List Document → List Row
joined assignments documents = map {B = Row} (λ d. (d, topic_of d.id assignments)) documents

-- An equation of SQL with a column that may be null.
abbrev pub equals : ℕ → Option ℕ → Bool
equals k none = false
equals k (some j) = j == k

abbrev pub passes {ℓ} : {A : Type ℓ} → Option A → (A → Bool) → Bool
passes none test = true
passes (some x) test = test x

abbrev pub matches : Codecs → Filters → Row → Bool
matches c f (d, topic) =
    (d.monitor_id == f.monitor_id)
    && (passes f.topic_id (λ t. equals t topic)
        && (passes f.source (λ s. same_source d.source_name s)
            && (passes f.first_day (λ day. leb (c.midnight day) d.published_at)
                && passes f.last_day (λ day. leb d.published_at (c.midnight day)))))

-- The rows that follow a cursor's position.
abbrev pub follows : ℕ × ℕ → Row → Bool
follows (published_at, id) (d, topic) =
    ltb d.published_at published_at || ((d.published_at == published_at) && ltb d.id id)

abbrev pub position : Row → ℕ × ℕ
position (d, topic) = (d.published_at, d.id)

unfoldable pub insert : Row → List Row → List Row
insert x [] = x ∷ []
insert x (y ∷ ys) =
    let later = insert x ys in if follows (position x) y then x ∷ y ∷ ys else y ∷ later

-- `ORDER BY published_at DESC, id DESC`
unfoldable pub order_by : List Row → List Row
order_by [] = []
order_by (x ∷ xs) = insert x (order_by xs)

abbrev pub last : List Row → Option Row
last [] = none
last (x ∷ []) = some x
last (x ∷ y ∷ rest) = last (y ∷ rest)

-- The page and the next cursor, from the rows that the query returned.
abbrev pub paged : Codecs → (limit : ℕ) → List Row → Result BrowseError (List Row × Option (List ℕ))
paged c limit rows = elim (ltb limit (length rows)) [
  | false ↦ ok (take limit rows, none)
  | true ↦ elim (last (take limit rows)) [
    | none ↦ err index_error
    | some x ↦ ok (take limit rows, some (encode_cursor c (position x).0 (position x).1))
  ]
]

-- The query, after a position if there is one.
abbrev pub query : Codecs → Filters → (after : Option (ℕ × ℕ)) → (limit : ℕ) → List Row → List Row
query c f after limit rows =
    take (limit + 1)
      (order_by (filter (λ r. passes after (λ k. follows k r)) (filter (matches c f) rows)))

unfoldable pub list_documents :
    Codecs
    → Filters
    → (cursor : Option (List ℕ)) → (limit : ℕ) → List Assignment
    → List Document
    → Result BrowseError (List Row × Option (List ℕ))
list_documents c f none limit assignments documents =
    paged c limit (query c f none limit (joined assignments documents))
list_documents c f (some cursor) limit assignments documents = elim (decode_cursor c cursor) [
  | err e ↦ err e
  | ok k ↦ paged c limit (query c f (some k) limit (joined assignments documents))
]
