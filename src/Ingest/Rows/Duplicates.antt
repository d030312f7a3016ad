-- ===== src/Ingest/Rows/Duplicates.antt =====
-- What inserting rows comes to.
use mlsc.Base.{
  ℕ, suc, ap, if◌then◌else◌, Result, ok, err, ◌≡◌, refl, ◌+◌, ◌≤◌, true, List, [], ◌∷◌, any, All,
  length, arith, Bool-cases, inl, inr,
}
use mlsc.Models.{Document}
use mlsc.Ingest.Rows.{
  do_nothing, UniqueViolation, returning, insert_values, fetched, same_document,
  insert_ignoring_duplicates,
}

-- The number of rows that have a new natural key, and the documents with them.
abbrev pub insert_new : List Document → List Document → ℕ × List Document
insert_new [] documents = (0, documents)
insert_new (row ∷ rest) documents =
    let skipped = insert_new rest documents in
    let (written, later) = insert_new rest (row ∷ documents) in
    if any (same_document row) documents then skipped else (suc written, later)

insert_values-fetched :
    (rows documents : List Document)
    → fetched (insert_values do_nothing rows documents) ≡ ok (insert_new rows documents)
unfolding insert_values
insert_values-fetched [] documents = refl
insert_values-fetched (row ∷ rest) documents =
    elim (Bool-cases (any (same_document row) documents)) [
      | inl there ↦ rw (insert_values, there) (insert_values-fetched rest documents)
      | inr new ↦
          rw (insert_values, new)
            (one_more (insert_values do_nothing rest (row ∷ documents))
              (insert_new rest (row ∷ documents)) (insert_values-fetched rest (row ∷ documents)))
    ]
  where
    one_more :
        (r : Result UniqueViolation (List ℕ × List Document)) (n : ℕ × List Document)
        → fetched r ≡ ok n
        → fetched (returning row r) ≡ ok (suc n.0, n.1)
    one_more (err e) n same = absurd cc
    one_more (ok (ids, later)) n same =
        let pair : (length ids, later) ≡ n = cc in ap (λ p. ok (suc p.0, p.1)) pair

-- The clause `ON CONFLICT DO NOTHING` is there, so that nothing is raised.
pub insert-returns :
    (rows documents : List Document)
    → insert_ignoring_duplicates rows documents ≡ ok (insert_new rows documents)
unfolding insert_ignoring_duplicates
insert-returns [] documents = refl
insert-returns (row ∷ rest) documents = insert_values-fetched (row ∷ rest) documents

pub insert-length :
    (rows documents : List Document)
    → let (written, after) = insert_new rows documents in
      (written ≤ length rows) × (length after ≡ length documents + written)
insert-length [] documents = ground arith
insert-length (row ∷ rest) documents =
    ground (arith, insert-length rest documents, insert-length rest (row ∷ documents))

-- Every row's key is in the table.
abbrev pub Stored : List Document → List Document → Type 0
Stored rows documents = All (λ row. any (same_document row) documents ≡ true) rows
