-- ===== src/Overrides/Purges.antt =====
-- A purge removes what its preview counted.
use mlsc.Base.{
  ℕ, ◌+◌, ◌-◌, ◌<◌, lt→ltb, ◌≡◌, ◌∙◌, refl, sym, ap, subst, some, Bool, false, not, List, [], ◌∷◌,
  map, ◌==◌, ==_iff, ==_refl, arith, ok, All, inl, inr, Bool-cases, filter, length, contains,
  length-map,
}
use mlsc.Models.{Document}
use mlsc.Overrides.{
  Tools, OverrideWorld, is_expired, cutoff_of, retention_state, preview_retention,
  check_purge_confirmed,
}
use mlsc.Overrides.Task.{enforce_retention}

-- No two documents with one identifier.
abbrev pub DistinctDocuments : List Document → Type 0
DistinctDocuments [] = Unit
DistinctDocuments (d ∷ rest) = All (λ e. (d.id == e.id) ≡ false) rest × DistinctDocuments rest

module _ (p : Document → Bool) where
  abbrev ids_of : List Document → List ℕ
  ids_of documents = map {B = ℕ} (λ d. d.id) (filter p documents)

  absent :
      (x : Document) (rest : List Document)
      → All (λ e. (x.id == e.id) ≡ false) rest
      → contains (ids_of rest) x.id ≡ false
  absent x [] apart = refl
  absent x (e ∷ rest) apart =
      let turned : (e.id == x.id) ≡ false =
        ground (arith, apart.0, ==_iff x.id e.id, ==_iff e.id x.id) in
      elim (Bool-cases (p e)) [
        | inl hit ↦ rw (hit, turned) (absent x rest apart.1)
        | inr miss ↦ rw miss (absent x rest apart.1)
      ]

  -- A row that stands before the others and is not among them.
  abbrev Selected : List ℕ → List Document → Type 0
  Selected ids rows = All (λ d. contains ids d.id ≡ p d) rows

  one_more :
      (x : Document) (ids : List ℕ) (rows : List Document)
      → All (λ e. (x.id == e.id) ≡ false) rows
      → Selected ids rows
      → Selected (x.id ∷ ids) rows
  one_more x ids [] apart h = tt
  one_more x ids (e ∷ rows) apart h = (rw apart.0 h.0, one_more x ids rows apart.1 h.1)

  ids_of-Selected :
      (documents : List Document)
      → DistinctDocuments documents
      → Selected (ids_of documents) documents
  ids_of-Selected [] distinct = tt
  ids_of-Selected (x ∷ rest) (apart, distinct) = elim (Bool-cases (p x)) [
    | inl hit ↦
        let first : ids_of (x ∷ rest) ≡ x.id ∷ ids_of rest = rw hit refl in
        subst (λ ids. Selected ids (x ∷ rest)) (sym first)
          (
            rw (==_refl x.id, hit) refl,
            one_more x (ids_of rest) rest apart (ids_of-Selected rest distinct),
          )
    | inr miss ↦
        let others : ids_of (x ∷ rest) ≡ ids_of rest = rw miss refl in
        subst (λ ids. Selected ids (x ∷ rest)) (sym others)
          (absent x rest apart ∙ sym miss, ids_of-Selected rest distinct)
  ]

  removed_rest :
      (ids : List ℕ) (rows : List Document)
      → Selected ids rows
      → filter (λ d. not (contains ids d.id)) rows ≡ filter (λ d. not (p d)) rows
  removed_rest ids [] h = refl
  removed_rest ids (d ∷ rows) h = rw (h.0, removed_rest ids rows h.1) refl

  count_both :
      (rows : List Document)
      → length rows ≡ length (filter (λ d. not (p d)) rows) + length (filter p rows)
  count_both [] = omega arith
  count_both (d ∷ rows) = elim (Bool-cases (p d)) [
    | inl hit ↦ rw hit (omega (arith, count_both rows))
    | inr miss ↦ rw miss (omega (arith, count_both rows))
  ]

-- If the monitor is there, its retention does not reach back before the first date, and no two documents
-- have one identifier, then the token of a preview is accepted as long as the day and the database are
-- the same, and the purge then removes as many documents as the preview counted, and exactly those past
-- the monitor's retention.
pub enforce_retention-preview :
    (t : Tools) (monitor_id today days : ℕ) (w : OverrideWorld)
    → w.retention_days monitor_id ≡ some days
    → days < today
    → DistinctDocuments w.documents
    → (count : ℕ) × (token : ℕ) × (w' : OverrideWorld) × (preview_retention t monitor_id today w
        ≡ ok (count, token))
      × (check_purge_confirmed t monitor_id today (some token) w ≡ ok tt)
      × (enforce_retention t monitor_id today w ≡ ok (count, w'))
      × (w'.documents ≡ filter (λ d. not (is_expired t monitor_id (today - days) d)) w.documents)
      × (length w.documents ≡ length w'.documents + count)
unfolding preview_retention retention_state check_purge_confirmed enforce_retention cutoff_of
enforce_retention-preview t monitor_id today days w there reaches distinct =
    let expired = is_expired t monitor_id (today - days) in
    let count = length (filter expired w.documents) in
    let token = t.sha256 monitor_id (today - days) count in
    let kept = filter (λ d. not (contains (ids_of expired w.documents) d.id)) w.documents in
    let cutoff : cutoff_of today days ≡ some (today - days) =
      rw (cutoff_of, lt→ltb days today reaches) refl in
    let rest =
      removed_rest expired (ids_of expired w.documents) w.documents
        (ids_of-Selected expired w.documents distinct) in
    (
      count,
      token,
      record w { documents = kept },
      rw (preview_retention, retention_state, there, cutoff) refl,
      rw (check_purge_confirmed, retention_state, there, cutoff, ==_refl token) refl,
      rw (enforce_retention, there, cutoff)
          (ap (λ n. ok (n, record w { documents = kept }))
            (length-map {B = ℕ} (λ d. d.id) (filter expired w.documents))),
      rest,
      count_both expired w.documents ∙ ap (λ r. length r + count) (sym rest),
    )
