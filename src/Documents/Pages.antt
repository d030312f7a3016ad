-- ===== src/Documents/Pages.antt =====
-- A reader that follows the cursors of `list_documents` reads every matching document once.
use mlsc.Base.{
  ℕ, zero, suc, ◌+◌, ◌≤◌, ◌<◌, ◌≡◌, ◌∙◌, refl, sym, ap, subst, Option, none, some, Bool, true, List,
  [], ◌∷◌, ltb, arith, ok, All, inl, inr, Bool-cases, filter, length, take, get_elem?, length-map,
  length-filter-le, ltb→lt,
}
use mlsc.Models.{Document}
use mlsc.Models.Topics.{Assignment}
use mlsc.Documents.{
  Codecs, Row, Filters, encode_cursor, decode_cursor, joined, matches, follows, position, order_by,
  paged, query, list_documents,
}
use mlsc.Documents.Cursor.{Readable, decode_cursor-encode_cursor}
use mlsc.Documents.Order.{
  Distinct, NewestFirst, order_by-NewestFirst, filter-order_by, length-order_by, drop, filter-after,
  filter_whole, filter-Distinct, Follows-at,
}
use mlsc.Documents.Paging.{
  read_all, take-drop, length-drop, last-take, drop-NewestFirst, drop-Follows, follows-within,
  paged-last, paged-more, joined_pages,
}

module _ (c : Codecs) (readable : Readable c) (f : Filters) (n : ℕ) (assignments : List Assignment)
    (documents : List Document) where
  abbrev matching : List Row
  matching = filter (matches c f) (joined assignments documents)

  more_by_one : suc n + 1 ≡ suc (suc n)
  more_by_one = omega arith

  All-true : (rows : List Row) → All (λ _. true ≡ true) rows
  All-true [] = tt
  All-true (x ∷ rows) = (refl, All-true rows)

  -- The page that shows the first of some rows.
  abbrev Shows : Option (List ℕ) → List Row → Type 0
  Shows cursor rows =
      list_documents c f cursor (suc n) assignments documents
      ≡ paged c (suc n) (take (suc (suc n)) rows)

  first-Shows : Shows none (order_by matching)
  unfolding list_documents
  first-Shows = ap (paged c (suc n)) (
      ap (λ k. take k (order_by (filter (λ _. true) matching))) more_by_one
      ∙ ap (λ r. take (suc (suc n)) (order_by r))
          (filter_whole (λ _. true) matching (All-true matching)))

  list_documents-decoded :
      (cursor : List ℕ) (k : ℕ × ℕ)
      → decode_cursor c cursor ≡ ok k
      → list_documents c f (some cursor) (suc n) assignments documents
        ≡ paged c (suc n) (query c f (some k) (suc n) (joined assignments documents))
  unfolding list_documents
  list_documents-decoded cursor k decoded = rw (list_documents, decoded) refl

  next-Shows :
      Distinct matching
      → (x : Row)
      → Shows
          (some (encode_cursor c (position x).0 (position x).1))
          (filter (follows (position x)) (order_by matching))
  next-Shows distinct x =
      list_documents-decoded (encode_cursor c (position x).0 (position x).1) (position x)
        (decode_cursor-encode_cursor c (position x).0 (position x).1 readable)
      ∙ ap (paged c (suc n)) (
          ap (λ k. take k (order_by (filter (follows (position x)) matching))) more_by_one
          ∙ ap (take (suc (suc n)))
              (sym (filter-order_by (follows (position x)) matching distinct)))

  read_all-last :
      (fuel : ℕ) (cursor : Option (List ℕ)) (page : List Row)
      → list_documents c f cursor (suc n) assignments documents ≡ ok (page, none)
      → read_all (suc fuel) c f cursor (suc n) assignments documents ≡ some (ok page)
  unfolding read_all
  read_all-last fuel cursor page shown = rw (read_all, shown) refl

  read_all-next :
      (fuel : ℕ) (cursor : Option (List ℕ)) (page : List Row) (next : List ℕ)
      → list_documents c f cursor (suc n) assignments documents ≡ ok (page, some next)
      → read_all (suc fuel) c f cursor (suc n) assignments documents
        ≡ joined_pages page (read_all fuel c f (some next) (suc n) assignments documents)
  unfolding read_all
  read_all-next fuel cursor page next shown = rw (read_all, shown) refl

  -- From any page on: what is read are the rows of which the page shows the first.
  read_all-rows :
      Distinct matching
      → (fuel : ℕ) (cursor : Option (List ℕ)) (rows : List Row) → Shows cursor rows
      → NewestFirst rows
      → ((x : Row) (m : ℕ)
          → get_elem? rows m ≡ some x
          → filter (follows (position x)) (order_by matching) ≡ filter (follows (position x)) rows)
      → length rows < fuel
      → read_all fuel c f cursor (suc n) assignments documents ≡ some (ok rows)
  read_all-rows distinct zero cursor rows shows sorted closed enough = absurd (omega arith)
  read_all-rows distinct (suc fuel) cursor rows shows sorted closed enough =
      elim (Bool-cases (ltb (suc n) (length rows))) [
        | inr fits ↦ read_all-last fuel cursor rows (shows ∙ paged-last c n rows fits)
        | inl more ↦
            let (x, l, at) = last-take n rows (ground arith) in
            let after = filter-after rows n x sorted at in
            let rest = closed x n at ∙ after in
            let later : read_all fuel c f (some (encode_cursor c (position x).0 (position x).1))
                  (suc n) assignments documents
                ≡ some (ok (drop (suc n) rows)) =
              read_all-rows distinct fuel (some (encode_cursor c (position x).0 (position x).1))
                (drop (suc n) rows)
                (subst (λ r. Shows (some (encode_cursor c (position x).0 (position x).1)) r) rest
                  (next-Shows distinct x))
                (drop-NewestFirst (suc n) rows sorted)
                (λ y m within.
                  let behind =
                    Follows-at x (drop (suc n) rows) m y (drop-Follows n rows x sorted at) within in
                  follows-within x y (order_by matching) behind
                  ∙ ap (filter (follows (position y))) rest)
                (omega (arith, length-drop (suc n) rows, ltb→lt (suc n) (length rows) more)) in
            read_all-next fuel cursor (take (suc n) rows)
              (encode_cursor c (position x).0 (position x).1) (shows ∙ paged-more c n rows x more l)
            ∙ ap (joined_pages (take (suc n) rows)) later
            ∙ ap (λ r. some (ok r)) (take-drop (suc n) rows)
      ]

length-joined :
    (assignments : List Assignment) (documents : List Document)
    → length (joined assignments documents) ≡ length documents
length-joined assignments documents = length-map _ documents

-- If the codecs read what they write, no two documents have one identifier and the limit is one at
-- least, then a reader that starts without a cursor and follows the cursors until there is none reads,
-- in at most one page more than there are documents, the documents that pass the filters, each as often
-- as it is there, from the newest to the oldest.
pub read_all_complete :
    (c : Codecs) (f : Filters) (limit : ℕ) (assignments : List Assignment)
    (documents : List Document)
    → Readable c
    → Distinct (joined assignments documents)
    → 1 ≤ limit
    → (rows : List Row) × (read_all (suc (length documents)) c f none limit assignments documents
        ≡ some (ok rows))
      × NewestFirst rows
      × ((q : Row → Bool)
          → length (filter q rows)
            ≡ length (filter q (filter (matches c f) (joined assignments documents))))
read_all_complete c f zero assignments documents readable distinct some_limit = absurd (omega arith)
read_all_complete c f (suc n) assignments documents readable distinct some_limit =
    let found = filter (matches c f) (joined assignments documents) in
    let different = filter-Distinct (matches c f) (joined assignments documents) distinct in
    let short = length-filter-le (matches c f) (joined assignments documents) in
    (
      order_by found,
      read_all-rows c readable f n assignments documents different (suc (length documents)) none
          (order_by found) (first-Shows c readable f n assignments documents)
          (order_by-NewestFirst found different) (λ x m at. refl)
          (omega (arith, short, length-order_by found, length-joined assignments documents)),
      order_by-NewestFirst found different,
      (λ q. ap length (filter-order_by q found different) ∙ length-order_by (filter q found)),
    )
