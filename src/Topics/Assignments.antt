-- ===== src/Topics/Assignments.antt =====
-- Merges and reassignments: what becomes of the assignments.
use mlsc.Base.{
  ◌≡◌, refl, subst, ap, ℕ, Option, none, some, true, false, not, List, [], ◌∷◌, ◌==◌, ==_iff,
  ==_refl, arith, inl, inr, Bool-cases, Option-cases, if◌then◌else◌, filter, All, ok,
}
use mlsc.Models.Topics.{Topic, Assignment}
use mlsc.Topics.{
  TopicWorld, find_topic, is_topic_active, move_assignments, get, merge_into, merge, assignments_of,
  delete_assignment,
}
use mlsc.Runs.{scalar_one_or_none}

-- What holds when `merge` has returned.
abbrev pub MergeReady : (from_id into : ℕ) → TopicWorld → Type 0
MergeReady from_id into w =
    ((from_id == into) ≡ false)
    × ((f : Topic) × (find_topic from_id w.topics ≡ some f))
    × ((t : Topic) × (find_topic into w.topics ≡ some t) × (is_topic_active t.status ≡ true))

pub merge-MergeReady :
    (lineage_id from_id into : ℕ) (reason : Option ℕ) (w : TopicWorld)
    → (merge lineage_id from_id into reason w).0 ≡ ok tt
    → MergeReady from_id into w
unfolding merge get merge_into
merge-MergeReady lineage_id from_id into reason w returned = elim (Bool-cases (from_id == into)) [
  | inl same ↦ absurd (ground (arith))
  | inr apart ↦ elim (Option-cases (find_topic from_id w.topics)) [
    | inl lost ↦ absurd (ground arith)
    | inr (f, there) ↦ elim (Option-cases (find_topic into w.topics)) [
      | inl lost ↦ absurd (ground arith)
      | inr (t, target) ↦ (apart, (f, there), (t, target, ground arith))
    ]
  ]
]

-- No document of the list is assigned twice, and no row's identifier is used twice.
abbrev pub ApartFrom : Assignment → Assignment → Type 0
ApartFrom a b = ((b.document_id == a.document_id) ≡ false) × ((b.id == a.id) ≡ false)

abbrev pub OneEach : List Assignment → Type 0
OneEach [] = Unit
OneEach (a ∷ rest) = All (ApartFrom a) rest × OneEach rest

moved-ApartFrom :
    (from_id into : ℕ) (a : Assignment) (rest : List Assignment)
    → All (ApartFrom a) rest
    → All
        (ApartFrom (if a.topic_id == from_id then record a { topic_id = into } else a))
        (move_assignments from_id into rest)
moved-ApartFrom from_id into a [] h = tt
moved-ApartFrom from_id into a (b ∷ rest) h =
    (ground arith, moved-ApartFrom from_id into a rest h.1)

pub move_assignments-OneEach :
    (from_id into : ℕ) (assignments : List Assignment)
    → OneEach assignments
    → OneEach (move_assignments from_id into assignments)
move_assignments-OneEach from_id into [] h = tt
move_assignments-OneEach from_id into (a ∷ rest) h =
    (moved-ApartFrom from_id into a rest h.0, move_assignments-OneEach from_id into rest h.1)

-- The assignments of the other documents.
abbrev pub assignments_but : (document_id : ℕ) → List Assignment → List Assignment
assignments_but document_id assignments =
    filter (λ a. not (a.document_id == document_id)) assignments

abbrev pub Identified : (Assignment → ℕ) → ℕ → Assignment → Type 0
Identified field k a = (field a == k) ≡ false

-- A row that no row of the list resembles.
none-match :
    (field : Assignment → ℕ) (k : ℕ) (rest : List Assignment)
    → All (Identified field k) rest
    → (filter (λ a. field a == k) rest ≡ []) × (filter (λ a. not (field a == k)) rest ≡ rest)
none-match field k [] h = (refl, refl)
none-match field k (b ∷ rest) h =
    let (out, kept) = none-match field k rest h.1 in (rw h.0 out, rw h.0 (ap (λ r. b ∷ r) kept))

Apart-fields :
    (a : Assignment) (rest : List Assignment)
    → All (ApartFrom a) rest
    → All (Identified (λ b. b.document_id) a.document_id) rest
      × All (Identified (λ b. b.id) a.id) rest
Apart-fields a [] h = (tt, tt)
Apart-fields a (b ∷ rest) h =
    let (documents, ids) = Apart-fields a rest h.1 in ((h.0.0, documents), (h.0.1, ids))

abbrev pub OptionNot : ℕ → Option Assignment → Type 0
OptionNot k none = Unit
OptionNot k (some a) = (a.id == k) ≡ false

-- The document's row, and what its deletion leaves.
abbrev pub Current : ℕ → List Assignment → Type 0
Current document_id assignments =
    (existing : Option Assignment) × (scalar_one_or_none (assignments_of document_id assignments)
      ≡ some existing)
    × (delete_assignment existing assignments ≡ assignments_but document_id assignments)
    × ((k : ℕ) → All (Identified (λ b. b.id) k) assignments → OptionNot k existing)

Current-first :
    (document_id : ℕ) (a : Assignment) (rest : List Assignment)
    → (a.document_id == document_id) ≡ true
    → All (ApartFrom a) rest
    → Current document_id (a ∷ rest)
Current-first document_id a rest h apart =
    let (documents, ids) = Apart-fields a rest apart in
    let same : a.document_id ≡ document_id = (==_iff a.document_id document_id).0 h in
    let (out, kept) =
      none-match (λ b. b.document_id) document_id rest
        (subst (λ k. All (Identified (λ b. b.document_id) k) rest) same documents) in
    let (gone, left) = none-match (λ b. b.id) a.id rest ids in
    (some a, rw (h, out) refl, rw (h, ==_refl a.id, kept) left, λ k all. all.0)

Current-later :
    (document_id : ℕ) (a : Assignment) (rest : List Assignment)
    → (a.document_id == document_id) ≡ false
    → All (ApartFrom a) rest
    → Current document_id rest
    → Current document_id (a ∷ rest)
Current-later document_id a rest h apart (none, found, deleted, not_k) =
    (none, rw h found, rw h (ap (λ r. a ∷ r) deleted), λ k all. tt)
Current-later document_id a rest h apart (some b, found, deleted, not_k) =
    let (documents, ids) = Apart-fields a rest apart in
    let other : (a.id == b.id) ≡ false =
      ground (arith, not_k a.id ids, ==_iff a.id b.id, ==_iff b.id a.id) in
    (some b, rw h found, rw (h, other) (ap (λ r. a ∷ r) deleted), λ k all. not_k k all.1)

pub OneEach-Current :
    (document_id : ℕ) (assignments : List Assignment)
    → OneEach assignments
    → Current document_id assignments
OneEach-Current document_id [] h = (none, refl, refl, λ k all. tt)
OneEach-Current document_id (a ∷ rest) h = elim (Bool-cases (a.document_id == document_id)) [
  | inl own ↦ Current-first document_id a rest own h.0
  | inr other ↦ Current-later document_id a rest other h.0 (OneEach-Current document_id rest h.1)
]

module _ (document_id : ℕ) where
  pub assignments_of-but :
      (other : ℕ) (assignments : List Assignment)
      → (other == document_id) ≡ false
      → assignments_of other (assignments_but document_id assignments)
        ≡ assignments_of other assignments
  assignments_of-but other [] h = refl
  assignments_of-but other (a ∷ rest) h = elim (Bool-cases (a.document_id == document_id)) [
    | inl own ↦
        let apart : (a.document_id == other) ≡ false = ground (
          arith,
          ==_iff a.document_id document_id,
          ==_iff a.document_id other,
          ==_iff other document_id,
        ) in
        rw (own, apart) (assignments_of-but other rest h)
    | inr away ↦ elim (Bool-cases (a.document_id == other)) [
      | inl here ↦ rw (away, here) (ap (λ r. a ∷ r) (assignments_of-but other rest h))
      | inr there ↦ rw (away, there) (assignments_of-but other rest h)
    ]
  ]

  pub assignments_of-none :
      (assignments : List Assignment)
      → assignments_of document_id (assignments_but document_id assignments) ≡ []
  assignments_of-none [] = refl
  assignments_of-none (a ∷ rest) = elim (Bool-cases (a.document_id == document_id)) [
    | inl own ↦ rw own (assignments_of-none rest)
    | inr away ↦ rw (away, away) (assignments_of-none rest)
  ]
