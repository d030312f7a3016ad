-- ===== src/Topics/Reassignment.antt =====
-- `reassign`: the document's one assignment afterwards.
use mlsc.Base.{
  ◌≡◌, refl, ap, ℕ, some, is_some, true, false, List, [], ◌∷◌, ◌==◌, ==_iff, ==_refl, arith, inl,
  inr, Bool-cases, All, ok,
}
use mlsc.Models.Topics.{Topic, Assignment}
use mlsc.Topics.{
  TopicWorld, find_topic, get, assignments_of, manual_assignment, reassign, change_topic,
}
use mlsc.Topics.Assignments.{
  ApartFrom, OneEach, Identified, OneEach-Current, assignments_but, assignments_of-but,
  assignments_of-none,
}

module _ (id document_id topic_id : ℕ) where
  added-ApartFrom :
      (assignments : List Assignment)
      → All (Identified (λ b. b.id) id) assignments
      → All
          (ApartFrom (manual_assignment id document_id topic_id))
          (assignments_but document_id assignments)
  added-ApartFrom [] h = tt
  added-ApartFrom (a ∷ rest) h = elim (Bool-cases (a.document_id == document_id)) [
    | inl own ↦ rw own (added-ApartFrom rest h.1)
    | inr away ↦ rw away ((away, h.0), added-ApartFrom rest h.1)
  ]

kept-All :
    (P : Assignment → Type 0) (document_id : ℕ) (assignments : List Assignment)
    → All P assignments
    → All P (assignments_but document_id assignments)
kept-All P document_id [] h = tt
kept-All P document_id (a ∷ rest) h = elim (Bool-cases (a.document_id == document_id)) [
  | inl own ↦ rw own (kept-All P document_id rest h.1)
  | inr away ↦ rw away (h.0, kept-All P document_id rest h.1)
]

kept-OneEach :
    (document_id : ℕ) (assignments : List Assignment)
    → OneEach assignments
    → OneEach (assignments_but document_id assignments)
kept-OneEach document_id [] h = tt
kept-OneEach document_id (a ∷ rest) h = elim (Bool-cases (a.document_id == document_id)) [
  | inl own ↦ rw own (kept-OneEach document_id rest h.1)
  | inr away ↦
      rw away (kept-All (ApartFrom a) document_id rest h.0, kept-OneEach document_id rest h.1)
]

-- The world after a reassignment.
abbrev pub manually_assigned : (id document_id topic_id today : ℕ) → TopicWorld → TopicWorld
manually_assigned id document_id topic_id today w = record w {
  assignments =
      manual_assignment id document_id topic_id ∷ assignments_but document_id w.assignments;
  topics = change_topic topic_id (λ t. record t { last_seen = today }) w.topics;
}

pub reassign-returns :
    (id document_id topic_id today : ℕ) (w : TopicWorld) (t : Topic)
    → OneEach w.assignments
    → is_some (w.documents document_id) ≡ true
    → find_topic topic_id w.topics ≡ some t
    → reassign id document_id topic_id today w
      ≡ (ok tt, manually_assigned id document_id topic_id today w)
unfolding reassign get
reassign-returns id document_id topic_id today w t one there found =
    let (existing, query, deleted, not_k) = OneEach-Current document_id w.assignments one in
    rw (there, get, found, query, deleted) refl

pub manually_assigned-OneEach :
    (id document_id topic_id : ℕ) (assignments : List Assignment)
    → OneEach assignments
    → All (Identified (λ b. b.id) id) assignments
    → OneEach (manual_assignment id document_id topic_id ∷ assignments_but document_id assignments)
manually_assigned-OneEach id document_id topic_id assignments one fresh = (
  added-ApartFrom id document_id topic_id assignments fresh,
  kept-OneEach document_id assignments one,
)

-- If no document is assigned twice, the new row's identifier is unused, and the document and the topic
-- are there, then `reassign` returns, the document's only assignment is the manual one to the topic, the
-- assignments of every other document are as before, and still no document is assigned twice.
pub reassign-manual :
    (id document_id topic_id today : ℕ) (w : TopicWorld) (t : Topic)
    → OneEach w.assignments
    → All (Identified (λ b. b.id) id) w.assignments
    → is_some (w.documents document_id) ≡ true
    → find_topic topic_id w.topics ≡ some t
    → let (result, w') = reassign id document_id topic_id today w in
      (result ≡ ok tt)
      × (assignments_of document_id w'.assignments ≡ manual_assignment id document_id topic_id ∷ [])
      × ((other : ℕ)
          → (other == document_id) ≡ false
          → assignments_of other w'.assignments ≡ assignments_of other w.assignments)
      × OneEach w'.assignments
reassign-manual id document_id topic_id today w t one fresh there found =
    rw (reassign-returns id document_id topic_id today w t one there found) (
      refl,
      rw (==_refl document_id) (
          ap (λ r. manual_assignment id document_id topic_id ∷ r)
            (assignments_of-none document_id w.assignments)),
      (λ other apart.
          let turned : (document_id == other) ≡ false =
            ground (arith, ==_iff document_id other, ==_iff other document_id) in
          rw turned (assignments_of-but document_id other w.assignments apart)),
      manually_assigned-OneEach id document_id topic_id w.assignments one fresh,
    )
