-- ===== src/Topics/Moves.antt =====
-- `merge`: where the topics' lineages and the assignments are afterwards.
use mlsc.Base.{
  ◌≡◌, ◌∙◌, refl, ap, ℕ, Option, some, false, List, [], ◌∷◌, ◌==◌, ==_iff, arith, inl, inr, ◌⊎◌,
  Bool-cases, ok, any, map,
}
use mlsc.Models.Topics.{Topic, Assignment}
use mlsc.Topics.{
  TopicWorld, find_topic, merged_topic, merged, move_assignments, get, merge_into, merge,
  merged_world,
}
use mlsc.Topics.Filters.{resolve_topic}
use mlsc.Topics.Chains.{edge, Leads, find_topic-there}
use mlsc.Topics.Merging.{Leads-Redirected, edge-merged-from, edge-merged-elsewhere, edge-active}
use mlsc.Topics.Assignments.{MergeReady, merge-MergeReady}
use mlsc.Topics.Resolution.{resolve_topic-Leads}

pub MergeReady-merge :
    (lineage_id from_id into : ℕ) (reason : Option ℕ) (w : TopicWorld)
    → MergeReady from_id into w
    → merge lineage_id from_id into reason w
      ≡ (ok tt, merged_world lineage_id from_id into reason w)
unfolding merge get merge_into
MergeReady-merge lineage_id from_id into reason w (apart, (f, there), (t, target, active)) =
    rw (apart, get, there, get, target, merge_into, active) refl

-- Everything but the topic.
abbrev pub without_topic : Assignment → Assignment
without_topic a = record a { topic_id = 0 }

module _ (from_id into : ℕ) (apart : (from_id == into) ≡ false) where
  none-left :
      (assignments : List Assignment)
      → any (λ a. a.topic_id == from_id) (move_assignments from_id into assignments) ≡ false
  none-left [] = refl
  none-left (a ∷ rest) =
      let turned : (into == from_id) ≡ false =
        ground (arith, ==_iff from_id into, ==_iff into from_id) in
      elim (Bool-cases (a.topic_id == from_id)) [
        | inl h ↦ rw (h, turned) (none-left rest)
        | inr h ↦ rw (h, h) (none-left rest)
      ]

  others-kept :
      (assignments : List Assignment)
      → map without_topic (move_assignments from_id into assignments)
        ≡ map without_topic assignments
  others-kept [] = refl
  others-kept (a ∷ rest) = elim (Bool-cases (a.topic_id == from_id)) [
    | inl h ↦ rw h (ap (λ r. without_topic a ∷ r) (others-kept rest))
    | inr h ↦ rw h (ap (λ r. without_topic a ∷ r) (others-kept rest))
  ]

-- If `merge` returns, then in the state that it leaves the merged topic's identifier resolves, for its
-- monitor, to the target; no assignment is left at the merged topic, and each is as before but for its
-- topic; and every lineage that ended at some topic ends at that topic or at the target.
pub merge-moves :
    (lineage_id from_id into : ℕ) (reason : Option ℕ) (w : TopicWorld) (f : Topic)
    → (merge lineage_id from_id into reason w).0 ≡ ok tt
    → find_topic from_id w.topics ≡ some f
    → let w' = (merge lineage_id from_id into reason w).1 in
      (resolve_topic f.monitor_id from_id w'.topics ≡ some (ok into))
      × (any (λ a. a.topic_id == from_id) w'.assignments ≡ false)
      × (map without_topic w'.assignments ≡ map without_topic w.assignments)
      × ((n id root : ℕ)
          → Leads (edge w.topics) n id root
          → (m : ℕ) × (root' : ℕ) × Leads (edge w'.topics) m id root'
            × ((root' ≡ root) ⊎ (root' ≡ into)))
merge-moves lineage_id from_id into reason w f returned there =
    let ready = merge-MergeReady lineage_id from_id into reason w returned in
    let (apart, known, (t, target, active)) = ready in
    let turned : (into == from_id) ≡ false =
      ground (arith, ==_iff from_id into, ==_iff into from_id) in
    let at_from = edge-merged-from from_id into w.topics f there in
    let ends =
      edge-merged-elsewhere from_id into w.topics into turned
      ∙ edge-active from_id into w.topics t target active in
    rw (MergeReady-merge lineage_id from_id into reason w ready) (
      resolve_topic-Leads f.monitor_id from_id 1 into (merged from_id into w.topics)
          (merged_topic into f)
          (find_topic-there from_id (merged_topic into) (λ u. refl) w.topics f there) refl
          (into, at_from, (ends, refl)),
      none-left from_id into apart w.assignments,
      others-kept from_id into apart w.assignments,
      Leads-Redirected (edge w.topics) (edge (merged from_id into w.topics)) from_id into at_from
          (edge-merged-elsewhere from_id into w.topics) ends,
    )
