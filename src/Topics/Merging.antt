-- ===== src/Topics/Merging.antt =====
-- What a merge does to the chains.
use mlsc.Base.{
  ◌⊎◌, ◌∙◌, ◌≡◌, refl, sym, subst, ℕ, zero, suc, Option, none, some, is_some, true, false, List,
  ◌==◌, ==_iff, arith, inl, inr, Bool-cases,
}
use mlsc.Models.Topics.{Topic}
use mlsc.Topics.{find_topic, is_topic_active, merged_topic, merged}
use mlsc.Topics.Filters.{next_topic}
use mlsc.Topics.Chains.{edge, Leads, Resolvable, find_topic-elsewhere, find_topic-there}

-- One merge, as a change of the edges.
module _ (e e' : ℕ → Option (Option ℕ)) (from_id into : ℕ) (at_from : e' from_id ≡ some (some into))
    (elsewhere : (id : ℕ) → (id == from_id) ≡ false → e' id ≡ e id)
    (target_ends : e' into ≡ some none) where
  abbrev Redirected : ℕ → ℕ → Type 0
  Redirected id root =
      (m : ℕ) × (root' : ℕ) × Leads e' m id root' × ((root' ≡ root) ⊎ (root' ≡ into))

  from-Redirected : (id root : ℕ) → (id == from_id) ≡ true → Redirected id root
  from-Redirected id root h =
      let same : id ≡ from_id = (==_iff id from_id).0 h in
      (
        1,
        into,
        (into, subst (λ k. e' k ≡ some (some into)) (sym same) at_from, (target_ends, refl)),
        inr refl,
      )

  pub Leads-Redirected : (n id root : ℕ) → Leads e n id root → Redirected id root
  Leads-Redirected zero id root (ends, same) = elim (Bool-cases (id == from_id)) [
    | inl h ↦ from-Redirected id root h
    | inr h ↦ (0, root, (elsewhere id h ∙ ends, same), inl refl)
  ]
  Leads-Redirected (suc n) id root (into', goes_on, later) = elim (Bool-cases (id == from_id)) [
    | inl h ↦ from-Redirected id root h
    | inr h ↦
        let (m, root', chain, end) = Leads-Redirected n into' root later in
        (suc m, root', (into', elsewhere id h ∙ goes_on, chain), end)
  ]

  pub redirected-Resolvable : Resolvable e → Resolvable e'
  redirected-Resolvable resolvable id there = elim (Bool-cases (id == from_id)) [
    | inl h ↦ let (m, root', chain, end) = from-Redirected id id h in (m, root', chain)
    | inr h ↦
        let (n, root, before) =
          resolvable id (subst (λ o. is_some o ≡ true) (elsewhere id h) there) in
        let (m, root', chain, end) = Leads-Redirected n id root before in (m, root', chain)
  ]

module _ (from_id into : ℕ) (topics : List Topic) where
  pub edge-merged-from :
      (f : Topic)
      → find_topic from_id topics ≡ some f
      → edge (merged from_id into topics) from_id ≡ some (some into)
  unfolding next_topic
  edge-merged-from f found =
      rw (edge, find_topic-there from_id (merged_topic into) (λ t. refl) topics f found) refl

  pub edge-merged-elsewhere :
      (id : ℕ) → (id == from_id) ≡ false → edge (merged from_id into topics) id ≡ edge topics id
  edge-merged-elsewhere id apart =
      rw (edge, find_topic-elsewhere from_id (merged_topic into) (λ t. refl) id topics apart) refl

  pub edge-active :
      (t : Topic)
      → find_topic into topics ≡ some t
      → is_topic_active t.status ≡ true
      → edge topics into ≡ some none
  unfolding next_topic
  edge-active t found active = rw (edge, found) (ground arith)
