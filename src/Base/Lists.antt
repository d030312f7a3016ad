-- ===== src/Base/Lists.antt =====
-- Lists measured by native numbers, Boolean filters and searches, and predicates on every element.
use Prim.Native.Nat.{ℕ, zero, suc, ◌+◌, ◌≤◌}
use mathlib.Core.Path.{◌≡◌, refl, ap}
use mathlib.Core.Logic.{◌↔◌, ◌⊎◌, inl, inr}
use mathlib.Core.Bool.{Bool, true, false, ◌&&◌, ◌||◌}
use mathlib.Core.List.{List, [], ◌∷◌, ◌++◌, map}
use mathlib.Core.Option.{Option, none, some}
use native.Mathlib.Omega.{arith}
use mlsc.Base.Tests.{if◌then◌else◌, ◌==◌, Bool-cases}

module _ {ℓ} {A : Type ℓ} where
  abbrev pub length : List A → ℕ
  length [] = 0
  length (x ∷ xs) = suc (length xs)

  abbrev pub take : ℕ → List A → List A
  take zero xs = []
  take (suc n) [] = []
  take (suc n) (x ∷ xs) = x ∷ take n xs

  abbrev pub get_elem? : List A → ℕ → Option A
  get_elem? [] i = none
  get_elem? (x ∷ xs) zero = some x
  get_elem? (x ∷ xs) (suc i) = get_elem? xs i

  -- `[x for x in xs if keep(x)]`
  abbrev pub filter : (A → Bool) → List A → List A
  filter keep [] = []
  filter keep (x ∷ xs) = let rest = filter keep xs in if keep x then x ∷ rest else rest

  -- `any(test(x) for x in xs)` and `all(test(x) for x in xs)`
  abbrev pub any : (A → Bool) → List A → Bool
  any test [] = false
  any test (x ∷ xs) = test x || any test xs

  abbrev pub all : (A → Bool) → List A → Bool
  all test [] = true
  all test (x ∷ xs) = test x && all test xs

  -- `sum(f(x) for x in xs)`
  abbrev pub sum_by : (A → ℕ) → List A → ℕ
  sum_by f [] = 0
  sum_by f (x ∷ xs) = f x + sum_by f xs

  pub length-append : (xs ys : List A) → length (xs ++ ys) ≡ length xs + length ys
  length-append [] ys = omega arith
  length-append (x ∷ xs) ys = omega (arith, length-append xs ys)

  pub length-take-le : (n : ℕ) (xs : List A) → length (take n xs) ≤ n
  length-take-le zero xs = omega arith
  length-take-le (suc n) [] = omega arith
  length-take-le (suc n) (x ∷ xs) = omega (arith, length-take-le n xs)

  pub length-filter-le : (keep : A → Bool) (xs : List A) → length (filter keep xs) ≤ length xs
  length-filter-le keep [] = omega arith
  length-filter-le keep (x ∷ xs) = ground (arith, length-filter-le keep xs)

  pub filter-same :
      (p q : A → Bool) (xs : List A) → ((x : A) → p x ≡ q x) → filter p xs ≡ filter q xs
  filter-same p q [] same = refl
  filter-same p q (x ∷ xs) same = rw (same x, filter-same p q xs same) refl

  pub filter-filter :
      (p q : A → Bool) (xs : List A) → filter p (filter q xs) ≡ filter (λ x. q x && p x) xs
  filter-filter p q [] = refl
  filter-filter p q (x ∷ xs) = elim (Bool-cases (q x)) [
    | inl h ↦ rw (h, filter-filter p q xs) refl
    | inr h ↦ rw (h, filter-filter p q xs) refl
  ]

pub length-map {ℓ κ} :
    {A : Type ℓ} {B : Type κ} (f : A → B) (xs : List A) → length (map f xs) ≡ length xs
length-map f [] = refl
length-map f (x ∷ xs) = omega (arith, length-map f xs)

-- `k in xs`, for identifiers.
abbrev pub contains : List ℕ → ℕ → Bool
contains xs k = any (λ x. x == k) xs

module _ {ℓ κ} {A : Type ℓ} where
  abbrev pub All : (A → Type κ) → List A → Type κ
  All P [] = Unit
  All P (x ∷ xs) = P x × All P xs

  pub All-append : (P : A → Type κ) (xs ys : List A) → All P xs → All P ys → All P (xs ++ ys)
  All-append P [] ys hx hy = hy
  All-append P (x ∷ xs) ys hx hy = (hx.0, All-append P xs ys hx.1 hy)

abbrev pub Has {ℓ} : {A : Type ℓ} → (A → Type 0) → List A → Type 0
Has P [] = ⊥
Has P (x ∷ xs) = P x ⊎ Has P xs

module _ {ℓ} {A : Type ℓ} (test : A → Bool) where
  pub any-Has : (xs : List A) → (any test xs ≡ true) ↔ Has (λ x. test x ≡ true) xs
  any-Has [] = ground arith
  any-Has (x ∷ xs) = ground (arith, any-Has xs)

  pub any-All : (xs : List A) → (any test xs ≡ false) ↔ All (λ x. test x ≡ false) xs
  any-All [] = ground arith
  any-All (x ∷ xs) = ground (arith, any-All xs)

module _ {ℓ} {A : Type ℓ} (f : A → ℕ) where
  pub sum_by-zero : (xs : List A) → (sum_by f xs ≡ 0) ↔ All (λ x. f x ≡ 0) xs
  sum_by-zero [] = ground arith
  sum_by-zero (x ∷ xs) = ground (arith, sum_by-zero xs)

  pub sum_by-pos : (xs : List A) → (1 ≤ sum_by f xs) ↔ Has (λ x. 1 ≤ f x) xs
  sum_by-pos [] = ground arith
  sum_by-pos (x ∷ xs) = ground (arith, sum_by-pos xs)

pub List-cases {ℓ} :
    {A : Type ℓ} (xs : List A) → (xs ≡ []) ⊎ ((y : A) × (ys : List A) × (xs ≡ y ∷ ys))
List-cases [] = inl refl
List-cases (y ∷ ys) = inr (y, ys, refl)

module _ {ℓ} {A : Type ℓ} where
  pub filter-append :
      (keep : A → Bool) (xs ys : List A) → filter keep (xs ++ ys) ≡ filter keep xs ++ filter keep ys
  filter-append keep [] ys = refl
  filter-append keep (x ∷ xs) ys = elim (Bool-cases (keep x)) [
    | inl h ↦ rw (h, filter-append keep xs ys) refl
    | inr h ↦ rw (h, filter-append keep xs ys) refl
  ]

  -- A change that the test does not see.
  pub filter-map :
      (keep : A → Bool) (f : A → A) (xs : List A)
      → ((x : A) → keep (f x) ≡ keep x)
      → filter keep (map f xs) ≡ map f (filter keep xs)
  filter-map keep f [] same = refl
  filter-map keep f (x ∷ xs) same = elim (Bool-cases (keep x)) [
    | inl h ↦ rw (same x, h, filter-map keep f xs same) refl
    | inr h ↦ rw (same x, h, filter-map keep f xs same) refl
  ]

  -- A change of no element that is kept.
  pub map-filter :
      (keep : A → Bool) (f : A → A) (xs : List A)
      → ((x : A) → keep x ≡ true → f x ≡ x)
      → map f (filter keep xs) ≡ filter keep xs
  map-filter keep f [] fixed = refl
  map-filter keep f (x ∷ xs) fixed = elim (Bool-cases (keep x)) [
    | inl h ↦ rw (h, fixed x h, map-filter keep f xs fixed) refl
    | inr h ↦ rw (h, map-filter keep f xs fixed) refl
  ]

  pub filter-none :
      (keep : A → Bool) (xs : List A) → ((x : A) → keep x ≡ false) → filter keep xs ≡ []
  filter-none keep [] h = refl
  filter-none keep (x ∷ xs) h = rw (h x) (filter-none keep xs h)

  -- What is kept passes the test.
  pub filter-All : (keep : A → Bool) (xs : List A) → All (λ x. keep x ≡ true) (filter keep xs)
  filter-All keep [] = tt
  filter-All keep (x ∷ xs) = elim (Bool-cases (keep x)) [
    | inl h ↦ rw h (h, filter-All keep xs)
    | inr h ↦ rw h (filter-All keep xs)
  ]

  pub append-[] : (xs : List A) → xs ++ [] ≡ xs
  append-[] [] = refl
  append-[] (x ∷ xs) = ap (λ rest. x ∷ rest) (append-[] xs)

module _ {ℓ κ} {A : Type ℓ} (P : A → Type κ) where
  pub All-map : (f : A → A) (xs : List A) → ((x : A) → P x → P (f x)) → All P xs → All P (map f xs)
  All-map f [] kept h = tt
  All-map f (x ∷ xs) kept h = (kept x h.0, All-map f xs kept h.1)

  pub All-filter : (keep : A → Bool) (xs : List A) → All P xs → All P (filter keep xs)
  All-filter keep [] h = tt
  All-filter keep (x ∷ xs) h = elim (Bool-cases (keep x)) [
    | inl e ↦ rw e (h.0, All-filter keep xs h.1)
    | inr e ↦ rw e (All-filter keep xs h.1)
  ]
