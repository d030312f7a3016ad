-- ===== src/Documents/Paging.antt =====
-- All pages of `list_documents`, one after the other.
use mlsc.Base.{
  ℕ, zero, suc, ◌-◌, ◌≤◌, ◌<◌, ◌≡◌, ◌∙◌, refl, sym, ap, subst, Option, none, some, true, false,
  ◌&&◌, List, [], ◌∷◌, ◌++◌, ltb, arith, Result, ok, err, All, inl, inr, Bool-cases, filter, length,
  take, get_elem?, filter-same, filter-filter,
}
use mlsc.Models.{Document}
use mlsc.Models.Topics.{Assignment}
use mlsc.Documents.{
  Codecs, BrowseError, Row, Filters, encode_cursor, follows, position, last, paged, list_documents,
}
use mlsc.Documents.Order.{Follows, NewestFirst, follows_trans, drop}

-- What a reader does that follows the cursors: the pages, one after the other. Nothing is returned
-- where the fuel is spent.
abbrev pub joined_pages :
    List Row → Option (Result BrowseError (List Row)) → Option (Result BrowseError (List Row))
joined_pages page none = none
joined_pages page (some (err e)) = some (err e)
joined_pages page (some (ok rows)) = some (ok (page ++ rows))

unfoldable pub read_all :
    (fuel : ℕ)
    → Codecs
    → Filters
    → (cursor : Option (List ℕ)) → (limit : ℕ) → List Assignment
    → List Document
    → Option (Result BrowseError (List Row))
read_all zero c f cursor limit assignments documents = none
read_all (suc fuel) c f cursor limit assignments documents =
    elim (list_documents c f cursor limit assignments documents) [
      | err e ↦ some (err e)
      | ok (page, none) ↦ some (ok page)
      | ok (page, some next) ↦
          joined_pages page (read_all fuel c f (some next) limit assignments documents)
    ]

take-take-suc : (n : ℕ) (xs : List Row) → take n (take (suc n) xs) ≡ take n xs
take-take-suc zero xs = refl
take-take-suc (suc n) [] = refl
take-take-suc (suc n) (x ∷ xs) = ap (λ r. x ∷ r) (take-take-suc n xs)

more-rows : (n : ℕ) (xs : List Row) → ltb n (length (take (suc n) xs)) ≡ ltb n (length xs)
more-rows n [] = refl
more-rows zero (x ∷ xs) = ground arith
more-rows (suc n) (x ∷ xs) = ground (arith, more-rows n xs)

take-all : (n : ℕ) (xs : List Row) → length xs ≤ n → take n xs ≡ xs
take-all zero [] h = refl
take-all zero (x ∷ xs) h = absurd (omega arith)
take-all (suc n) [] h = refl
take-all (suc n) (x ∷ xs) h = ap (λ r. x ∷ r) (take-all n xs (omega arith))

pub take-drop : (n : ℕ) (xs : List Row) → take n xs ++ drop n xs ≡ xs
take-drop zero xs = refl
take-drop (suc n) [] = refl
take-drop (suc n) (x ∷ xs) = ap (λ r. x ∷ r) (take-drop n xs)

pub length-drop : (n : ℕ) (xs : List Row) → length (drop n xs) ≡ length xs - n
length-drop zero xs = omega arith
length-drop (suc n) [] = omega arith
length-drop (suc n) (x ∷ xs) = omega (arith, length-drop n xs)

-- The last row of a full page.
pub last-take :
    (n : ℕ) (xs : List Row)
    → n < length xs
    → (x : Row) × (last (take (suc n) xs) ≡ some x) × (get_elem? xs n ≡ some x)
last-take n [] h = absurd (omega arith)
last-take zero (x ∷ xs) h = (x, refl, refl)
last-take (suc n) (x ∷ []) h = absurd (omega arith)
last-take (suc n) (x ∷ y ∷ ys) h = let (z, l, at) = last-take n (y ∷ ys) (omega arith) in (z, l, at)

pub drop-NewestFirst : (n : ℕ) (xs : List Row) → NewestFirst xs → NewestFirst (drop n xs)
drop-NewestFirst zero xs sorted = sorted
drop-NewestFirst (suc n) [] sorted = tt
drop-NewestFirst (suc n) (x ∷ xs) sorted = drop-NewestFirst n xs sorted.1

pub drop-Follows :
    (n : ℕ) (xs : List Row) (x : Row)
    → NewestFirst xs
    → get_elem? xs n ≡ some x
    → All (Follows x) (drop (suc n) xs)
drop-Follows n [] x sorted at = absurd cc
drop-Follows zero (y ∷ ys) x sorted at =
    let same : y ≡ x = cc in subst (λ v. All (Follows v) ys) same sorted.0
drop-Follows (suc n) (y ∷ ys) x sorted at = drop-Follows n ys x sorted.1 at

-- A position within what follows another.
pub follows-within :
    (x y : Row) (rows : List Row)
    → Follows x y
    → filter (follows (position y)) rows
      ≡ filter (follows (position y)) (filter (follows (position x)) rows)
follows-within x y rows h =
    filter-same (follows (position y)) (λ r. follows (position x) r && follows (position y) r) rows
      (λ r. elim (Bool-cases (follows (position y) r)) [
        | inl after ↦ rw (after, follows_trans (position x) y r h after) refl
        | inr before ↦ rw before (ground arith)
      ])
    ∙ sym (filter-filter (follows (position y)) (follows (position x)) rows)

module _ (c : Codecs) where
  paged-fits :
      (limit : ℕ) (rows : List Row)
      → ltb limit (length rows) ≡ false
      → paged c limit rows ≡ ok (take limit rows, none)
  paged-fits limit rows fits = rw (paged, fits) refl

  paged-next :
      (limit : ℕ) (rows : List Row) (x : Row)
      → ltb limit (length rows) ≡ true
      → last (take limit rows) ≡ some x
      → paged c limit rows
        ≡ ok (take limit rows, some (encode_cursor c (position x).0 (position x).1))
  paged-next limit rows x more l = rw (paged, more, l) refl

  -- The limit is one at least.
  module _ (n : ℕ) (rows : List Row) where
    pub paged-last :
        ltb (suc n) (length rows) ≡ false
        → paged c (suc n) (take (suc (suc n)) rows) ≡ ok (rows, none)
    paged-last fits =
        let whole = take-take-suc (suc n) rows ∙ take-all (suc n) rows (ground arith) in
        paged-fits (suc n) (take (suc (suc n)) rows) (more-rows (suc n) rows ∙ fits)
        ∙ ap (λ r. ok (r, none)) whole

    pub paged-more :
        (x : Row)
        → ltb (suc n) (length rows) ≡ true
        → last (take (suc n) rows) ≡ some x
        → paged c (suc n) (take (suc (suc n)) rows)
          ≡ ok (take (suc n) rows, some (encode_cursor c (position x).0 (position x).1))
    paged-more x more l =
        let cut = take-take-suc (suc n) rows in
        paged-next (suc n) (take (suc (suc n)) rows) x (more-rows (suc n) rows ∙ more)
          (ap last cut ∙ l)
        ∙ ap (λ r. ok (r, some (encode_cursor c (position x).0 (position x).1))) cut
