-- ===== src/Monitors/Rows.antt =====
-- The rows of monitors under insertions and changes.
use mlsc.Base.{
  ℕ, ◌≡◌, ◌∙◌, refl, sym, ap, subst, none, some, false, List, [], ◌∷◌, ◌++◌, ◌==◌, ==_iff, ==_refl,
  if◌then◌else◌, arith, ok, All, inl, inr, found_cases, Bool-cases, any,
}
use mlsc.Models.Monitors.{Monitor}
use mlsc.Monitors.{find_monitor, insert, store_monitor}

-- The monitor with an identifier, after an insertion and after a change.
pub find-insert-same :
    (m : Monitor) (monitors : List Monitor)
    → any (λ n. n.id == m.id) monitors ≡ false
    → (find_monitor m.id monitors ≡ none) × (find_monitor m.id (monitors ++ (m ∷ [])) ≡ some m)
find-insert-same m [] fresh = (refl, rw (==_refl m.id) refl)
find-insert-same m (n ∷ rest) fresh = elim (Bool-cases (n.id == m.id)) [
  | inl h ↦ absurd cc
  | inr h ↦ let later = find-insert-same m rest cc in (rw h later.0, rw h later.1)
]

pub find-insert-other :
    (k : ℕ) (m : Monitor) (monitors : List Monitor)
    → (k == m.id) ≡ false
    → find_monitor k (monitors ++ (m ∷ [])) ≡ find_monitor k monitors
find-insert-other k m [] other = ground arith
find-insert-other k m (n ∷ rest) other = rw (find-insert-other k m rest other) refl

pub find-store-same :
    (m old : Monitor) (monitors : List Monitor)
    → find_monitor m.id monitors ≡ some old
    → find_monitor m.id (store_monitor m monitors) ≡ some m
find-store-same m old [] found = absurd cc
find-store-same m old (n ∷ rest) found = elim (found_cases (n.id == m.id) n old _ found) [
  | inl (here, same) ↦ rw (here, ==_refl m.id) refl
  | inr (there, later) ↦ rw (there, there) (find-store-same m old rest later)
]

pub find-store-other :
    (k : ℕ) (m : Monitor) (monitors : List Monitor)
    → (k == m.id) ≡ false
    → find_monitor k (store_monitor m monitors) ≡ find_monitor k monitors
find-store-other k m [] other = refl
find-store-other k m (n ∷ rest) other = elim (Bool-cases (n.id == m.id)) [
  | inl h ↦
      let not_new : (m.id == k) ≡ false = ground arith in
      let not_old : (n.id == k) ≡ false = ground arith in
      rw (h, not_new, not_old) (find-store-other k m rest other)
  | inr h ↦ rw (h, find-store-other k m rest other) refl
]

pub find-id :
    (k : ℕ) (m : Monitor) (monitors : List Monitor) → find_monitor k monitors ≡ some m → m.id ≡ k
find-id k m [] found = absurd cc
find-id k m (n ∷ rest) found = elim (found_cases (n.id == k) n m _ found) [
  | inl (here, same) ↦ sym (ap (λ x. x.id) same) ∙ (==_iff n.id k).0 here
  | inr (there, later) ↦ find-id k m rest later
]

pub find-All :
    (P : Monitor → Type 0) (k : ℕ) (m : Monitor) (monitors : List Monitor)
    → find_monitor k monitors ≡ some m
    → All P monitors
    → P m
find-All P k m [] found h = absurd cc
find-All P k m (n ∷ rest) found h = elim (found_cases (n.id == k) n m _ found) [
  | inl (here, same) ↦ subst P same h.0
  | inr (there, later) ↦ find-All P k m rest later h.1
]

pub stored-valid :
    (P : Monitor → Type 0) (m : Monitor)
    → P m
    → (n : Monitor) → P n
    → P (if n.id == m.id then m else n)
stored-valid P m h n old = elim (Bool-cases (n.id == m.id)) [ inl e ↦ rw e h | inr e ↦ rw e old ]

pub insert-eq-ok :
    (m : Monitor) (monitors monitors' : List Monitor)
    → insert m monitors ≡ ok monitors'
    → (any (λ n. n.id == m.id) monitors ≡ false) × (monitors ++ (m ∷ []) ≡ monitors')
insert-eq-ok m monitors monitors' inserted = elim (Bool-cases (any (λ n. n.id == m.id) monitors)) [
  | inl h ↦ absurd cc
  | inr h ↦ (h, cc)
]
