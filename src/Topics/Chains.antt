-- ===== src/Topics/Chains.antt =====
-- Chains of merges: where the lineage of a topic ends.
use mlsc.Base.{
  sym, ==_refl, false, Option-cases, if◌then◌else◌, ◌∙◌, ◌≡◌, refl, subst, ap, fun_ext, ℕ, zero,
  suc, Option, none, some, is_some, true, List, [], ◌∷◌, ◌==◌, ==_iff, arith, inl, inr, Bool-cases,
  map,
}
use mlsc.Models.Topics.{Topic}
use mlsc.Topics.{find_topic, change_topic}
use mlsc.Topics.Filters.{next_topic}

abbrev pub found_as {ℓ} : {A : Type ℓ} → (Topic → A) → Option Topic → Option A
found_as f none = none
found_as f (some t) = some (f t)

-- Nothing where there is no such topic, and else where its lineage goes on.
abbrev pub edge : List Topic → ℕ → Option (Option ℕ)
edge topics id = found_as next_topic (find_topic id topics)

-- After `n` merges the lineage of `id` ends at `root`.
abbrev pub Leads : (ℕ → Option (Option ℕ)) → ℕ → ℕ → ℕ → Type 0
Leads e zero id root = (e id ≡ some none) × (id ≡ root)
Leads e (suc n) id root = (into : ℕ) × (e id ≡ some (some into)) × Leads e n into root

-- The lineage of each topic ends: no cycle, and no merge into a topic that is not there.
abbrev pub Resolvable : (ℕ → Option (Option ℕ)) → Type 0
Resolvable e = (id : ℕ) → is_some (e id) ≡ true → (n : ℕ) × (root : ℕ) × Leads e n id root

-- The number of merges and the end of a lineage are determined.
pub Leads-unique :
    (e : ℕ → Option (Option ℕ)) (m n id a b : ℕ)
    → Leads e m id a
    → Leads e n id b
    → (m ≡ n) × (a ≡ b)
Leads-unique e zero zero id a b p q = (refl, cc)
Leads-unique e zero (suc n) id a b p q = absurd cc
Leads-unique e (suc m) zero id a b p q = absurd cc
Leads-unique e (suc m) (suc n) id a b (i, pi, pr) (j, qj, qr) =
    let same : i ≡ j = cc in
    let (steps, ends) = Leads-unique e m n j a b (subst (λ k. Leads e m k a) same pr) qr in
    (omega (arith, steps), ends)

pub find_topic-id :
    (id : ℕ) (topics : List Topic) (t : Topic) → find_topic id topics ≡ some t → t.id ≡ id
find_topic-id id [] t found = absurd cc
find_topic-id id (s ∷ rest) t found = ground (arith, find_topic-id id rest t, ==_iff s.id id)

-- A change of the topics that keeps the identifiers.
module _ (g : Topic → Topic) (keeps_id : (t : Topic) → (g t).id ≡ t.id) where
  pub find_topic-map :
      (id : ℕ) (topics : List Topic)
      → find_topic id (map g topics) ≡ found_as g (find_topic id topics)
  find_topic-map id [] = refl
  find_topic-map id (s ∷ rest) =
      let same : (g s).id == id ≡ s.id == id = ap (λ x. x == id) (keeps_id s) in
      elim (Bool-cases (s.id == id)) [
        | inl h ↦ rw (same, h) refl
        | inr h ↦ rw (same, h) (find_topic-map id rest)
      ]

  found_as-map :
      ((t : Topic) → next_topic (g t) ≡ next_topic t)
      → (found : Option Topic) → found_as next_topic (found_as g found) ≡ found_as next_topic found
  found_as-map same none = refl
  found_as-map same (some t) = ap some (same t)

  -- If it keeps where each goes on, the chains are the same.
  pub edge-map :
      ((t : Topic) → next_topic (g t) ≡ next_topic t)
      → (topics : List Topic) → edge (map g topics) ≡ edge topics
  edge-map same topics =
      fun_ext (λ id. rw (edge, find_topic-map id topics) (found_as-map same (find_topic id topics)))

-- A change of one topic that keeps its identifier.
module _ (k : ℕ) (f : Topic → Topic) (keeps_id : (t : Topic) → (f t).id ≡ t.id) where
  changed-id : (t : Topic) → (if t.id == k then f t else t).id ≡ t.id
  changed-id t = elim (Bool-cases (t.id == k)) [ inl h ↦ rw h (keeps_id t) | inr h ↦ rw h refl ]

  found-changed :
      (id : ℕ) (topics : List Topic) (t : Topic)
      → find_topic id topics ≡ some t
      → find_topic id (change_topic k f topics) ≡ some (if id == k then f t else t)
  found-changed id topics t found =
      rw (find_topic-map (λ u. if u.id == k then f u else u) changed-id id topics, found)
        (ap (λ x. some (if x == k then f t else t)) (find_topic-id id topics t found))

  lost-changed :
      (id : ℕ) (topics : List Topic)
      → find_topic id topics ≡ none
      → find_topic id (change_topic k f topics) ≡ none
  lost-changed id topics lost =
      rw (find_topic-map (λ u. if u.id == k then f u else u) changed-id id topics, lost) refl

  -- The others are found as before.
  pub find_topic-elsewhere :
      (id : ℕ) (topics : List Topic)
      → (id == k) ≡ false
      → find_topic id (change_topic k f topics) ≡ find_topic id topics
  find_topic-elsewhere id topics apart = elim (Option-cases (find_topic id topics)) [
    | inl lost ↦ lost-changed id topics lost ∙ sym lost
    | inr (t, found) ↦
        subst (λ b. find_topic id (change_topic k f topics) ≡ some (if b then f t else t)) apart
          (found-changed id topics t found)
        ∙ sym found
  ]

  pub find_topic-there :
      (topics : List Topic) (t : Topic)
      → find_topic k topics ≡ some t
      → find_topic k (change_topic k f topics) ≡ some (f t)
  find_topic-there topics t found =
      subst (λ b. find_topic k (change_topic k f topics) ≡ some (if b then f t else t)) (==_refl k)
        (found-changed k topics t found)
