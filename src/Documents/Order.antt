-- ===== src/Documents/Order.antt =====
-- Rows from the newest to the oldest: the order of the query, and what follows a position.
use mlsc.Base.{
  ℕ, zero, suc, ◌≡◌, ◌∙◌, refl, sym, ap, subst, some, Bool, true, false, List, [], ◌∷◌, ◌==◌, arith,
  All, inl, inr, Bool-cases, filter, all, length, get_elem?,
}
use mlsc.Documents.{Row, follows, position, insert, order_by}

-- Rows of different documents.
abbrev pub Other : Row → Row → Type 0
Other x y = (y.0.id == x.0.id) ≡ false

abbrev pub Distinct : List Row → Type 0
Distinct [] = Unit
Distinct (x ∷ xs) = All (Other x) xs × Distinct xs

abbrev pub Follows : Row → Row → Type 0
Follows x y = follows (position x) y ≡ true

abbrev pub NewestFirst : List Row → Type 0
NewestFirst [] = Unit
NewestFirst (x ∷ xs) = All (Follows x) xs × NewestFirst xs

pub follows_trans : (k : ℕ × ℕ) (x y : Row) → follows k x ≡ true → Follows x y → follows k y ≡ true
follows_trans (p, id) (d, t) (e, u) h g = ground arith

follows-total : (x y : Row) → Other x y → follows (position x) y ≡ false → Follows y x
follows-total (d, t) (e, u) other h = ground arith

pub follows-not : (x y : Row) → Follows x y → follows (position y) x ≡ false
follows-not (d, t) (e, u) h = ground arith

pub follows_self : (x : Row) → follows (position x) x ≡ false
follows_self (d, t) = ground arith

All-trans : (x y : Row) (ys : List Row) → Follows x y → All (Follows y) ys → All (Follows x) ys
All-trans x y [] h all = tt
All-trans x y (z ∷ ys) h all = (follows_trans (position x) y z h all.0, All-trans x y ys h all.1)

insert-All : (P : Row → Type 0) (x : Row) (ys : List Row) → P x → All P ys → All P (insert x ys)
unfolding insert
insert-All P x [] h all = (h, tt)
insert-All P x (y ∷ ys) h all = elim (Bool-cases (follows (position x) y)) [
  | inl here ↦ rw (insert, here) (h, all)
  | inr later ↦ rw (insert, later) (all.0, insert-All P x ys h all.1)
]

insert-NewestFirst :
    (x : Row) (ys : List Row) → All (Other x) ys → NewestFirst ys → NewestFirst (insert x ys)
unfolding insert
insert-NewestFirst x [] other sorted = (tt, tt)
insert-NewestFirst x (y ∷ ys) other sorted = elim (Bool-cases (follows (position x) y)) [
  | inl here ↦ rw (insert, here) ((here, All-trans x y ys here sorted.0), sorted)
  | inr later ↦
      rw (insert, later)
        (
          insert-All (Follows y) x ys (follows-total x y other.0 later) sorted.0,
          insert-NewestFirst x ys other.1 sorted.1,
        )
]

order_by-All : (P : Row → Type 0) (xs : List Row) → All P xs → All P (order_by xs)
unfolding order_by
order_by-All P [] all = tt
order_by-All P (x ∷ xs) all = insert-All P x (order_by xs) all.0 (order_by-All P xs all.1)

pub order_by-NewestFirst : (xs : List Row) → Distinct xs → NewestFirst (order_by xs)
unfolding order_by
order_by-NewestFirst [] distinct = tt
order_by-NewestFirst (x ∷ xs) distinct =
    insert-NewestFirst x (order_by xs) (order_by-All (Other x) xs distinct.0)
      (order_by-NewestFirst xs distinct.1)

module _ (q : Row → Bool) where
  insert-front : (x : Row) (zs : List Row) → All (Follows x) zs → insert x zs ≡ x ∷ zs
  unfolding insert
  insert-front x [] all = refl
  insert-front x (z ∷ zs) all = rw (insert, all.0) refl

  filter-All : (P : Row → Type 0) (xs : List Row) → All P xs → All P (filter q xs)
  filter-All P [] all = tt
  filter-All P (x ∷ xs) all = elim (Bool-cases (q x)) [
    | inl h ↦ rw h (all.0, filter-All P xs all.1)
    | inr h ↦ rw h (filter-All P xs all.1)
  ]

  filter-insert-kept :
      (x : Row) (ys : List Row)
      → NewestFirst ys
      → q x ≡ true
      → filter q (insert x ys) ≡ insert x (filter q ys)
  unfolding insert
  filter-insert-kept x [] sorted h = rw h refl
  filter-insert-kept x (y ∷ ys) sorted h = elim (Bool-cases (follows (position x) y)) [
    | inl here ↦
        let front =
          insert-front x (filter q (y ∷ ys))
            (filter-All (Follows x) (y ∷ ys) (here, All-trans x y ys here sorted.0)) in
        rw (insert, here, h) (sym front)
    | inr later ↦ elim (Bool-cases (q y)) [
      | inl keep ↦ rw (insert, later, keep, later, filter-insert-kept x ys sorted.1 h) refl
      | inr drop_it ↦ rw (insert, later, drop_it) (filter-insert-kept x ys sorted.1 h)
    ]
  ]

  filter-insert-dropped :
      (x : Row) (ys : List Row) → q x ≡ false → filter q (insert x ys) ≡ filter q ys
  unfolding insert
  filter-insert-dropped x [] h = rw h refl
  filter-insert-dropped x (y ∷ ys) h = elim (Bool-cases (follows (position x) y)) [
    | inl here ↦ rw (insert, here, h) refl
    | inr later ↦ elim (Bool-cases (q y)) [
      | inl keep ↦ rw (insert, later, keep, filter-insert-dropped x ys h) refl
      | inr drop_it ↦ rw (insert, later, drop_it) (filter-insert-dropped x ys h)
    ]
  ]

  -- A test of the rows may be made before or after they are put in order.
  pub filter-order_by :
      (xs : List Row) → Distinct xs → filter q (order_by xs) ≡ order_by (filter q xs)
  unfolding order_by
  filter-order_by [] distinct = refl
  filter-order_by (x ∷ xs) distinct =
      let before = filter-order_by xs distinct.1 in
      elim (Bool-cases (q x)) [
        | inl keep ↦ rw keep (
            filter-insert-kept x (order_by xs) (order_by-NewestFirst xs distinct.1) keep
            ∙ ap (insert x) before)
        | inr drop_it ↦ rw drop_it (filter-insert-dropped x (order_by xs) drop_it ∙ before)
      ]

length-insert : (x : Row) (ys : List Row) → length (insert x ys) ≡ suc (length ys)
unfolding insert
length-insert x [] = refl
length-insert x (y ∷ ys) = ground (arith, length-insert x ys)

pub length-order_by : (xs : List Row) → length (order_by xs) ≡ length xs
unfolding order_by
length-order_by [] = refl
length-order_by (x ∷ xs) = omega (arith, length-insert x (order_by xs), length-order_by xs)

abbrev pub drop : ℕ → List Row → List Row
drop zero xs = xs
drop (suc n) [] = []
drop (suc n) (x ∷ xs) = drop n xs

pub filter_whole : (q : Row → Bool) (xs : List Row) → All (λ x. q x ≡ true) xs → filter q xs ≡ xs
filter_whole q [] all = refl
filter_whole q (x ∷ xs) all = rw (all.0, filter_whole q xs all.1) refl

pub Follows-at :
    (x : Row) (ys : List Row) (n : ℕ) (y : Row)
    → All (Follows x) ys
    → get_elem? ys n ≡ some y
    → Follows x y
Follows-at x [] n y all at = absurd cc
Follows-at x (z ∷ ys) zero y all at = let same : z ≡ y = cc in subst (Follows x) same all.0
Follows-at x (z ∷ ys) (suc n) y all at = Follows-at x ys n y all.1 at

-- What follows the n-th row.
pub filter-after :
    (xs : List Row) (n : ℕ) (x : Row)
    → NewestFirst xs
    → get_elem? xs n ≡ some x
    → filter (follows (position x)) xs ≡ drop (suc n) xs
filter-after [] n x sorted at = absurd cc
filter-after (y ∷ ys) zero x sorted at =
    let same : y ≡ x = cc in
    subst (λ v. filter (follows (position v)) (y ∷ ys) ≡ ys) same
      (rw (follows_self y) (filter_whole (follows (position y)) ys sorted.0))
filter-after (y ∷ ys) (suc n) x sorted at =
    rw (follows-not y x (Follows-at y ys n x sorted.0 at)) (filter-after ys n x sorted.1 at)

pub filter-Distinct : (q : Row → Bool) (xs : List Row) → Distinct xs → Distinct (filter q xs)
filter-Distinct q [] distinct = tt
filter-Distinct q (x ∷ xs) distinct = elim (Bool-cases (q x)) [
  | inl h ↦ rw h (filter-All q (Other x) xs distinct.0, filter-Distinct q xs distinct.1)
  | inr h ↦ rw h (filter-Distinct q xs distinct.1)
]
