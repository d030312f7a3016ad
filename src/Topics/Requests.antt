-- ===== src/Topics/Requests.antt =====
-- What every sequence of the calls on topics keeps.
use mlsc.Base.{
  List-cases, ◌≡◌, ◌∙◌, refl, sym, subst, ℕ, Option, some, is_some, Bool, true, false, List, ◌∷◌,
  ◌==◌, ==_iff, arith, inl, inr, Bool-cases, Option-cases, if◌then◌else◌, All,
}
use mlsc.Models.Topics.{Topic}
use mlsc.Topics.{
  find_proposal, TopicWorld, Returned, find_topic, get, rename, set_pinned, merge, merge_into,
  reject_split_proposal, reassign, change_topic, is_topic_active, is_silent, put_to_sleep,
  mark_dormant_topics, merged,
}
use mlsc.Topics.Filters.{next_topic}
use mlsc.Topics.Chains.{edge, Resolvable, edge-map}
use mlsc.Topics.Merging.{
  redirected-Resolvable, edge-merged-from, edge-merged-elsewhere, edge-active,
}
use mlsc.Topics.Assignments.{OneEach, Identified, move_assignments-OneEach}
use mlsc.Topics.Reassignment.{reassign-returns, manually_assigned-OneEach}

-- Every lineage ends, and no document is assigned twice.
abbrev pub Sound : TopicWorld → Type 0
Sound w = Resolvable (edge w.topics) × OneEach w.assignments

-- The calls of the service and of the daily pass, and the worlds they leave.
pub data Step : TopicWorld → TopicWorld → Type 0 where
  renamed :
      (strip : List ℕ → List ℕ) (id : ℕ) (label : List ℕ) (w : TopicWorld)
      → Step w (rename strip id label w).1
  pinned : (id : ℕ) (b : Bool) (w : TopicWorld) → Step w (set_pinned id b w).1
  merged_step :
      (lineage_id from_id into : ℕ) (reason : Option ℕ) (w : TopicWorld)
      → Step w (merge lineage_id from_id into reason w).1
  rejected : (id : ℕ) (w : TopicWorld) → Step w (reject_split_proposal id w).1
  reassigned_step :
      (id document_id topic_id today : ℕ) (w : TopicWorld)
      → All (Identified (λ b. b.id) id) w.assignments
      → Step w (reassign id document_id topic_id today w).1
  marked :
      (monitor_id dormancy_days today : ℕ) (w : TopicWorld)
      → Step w (mark_dormant_topics monitor_id dormancy_days today w).1

pub data Reach (w : TopicWorld) : TopicWorld → Type 0 where
  start : Reach w w
  then_step : {u v : TopicWorld} → Reach w u → Step u v → Reach w v

-- A change of one topic that is not a merge.
module _ (k : ℕ) (f : Topic → Topic) (same_id : (t : Topic) → (f t).id ≡ t.id)
    (same_next : (t : Topic) → next_topic (f t) ≡ next_topic t) where
  pub edge-change_topic : (topics : List Topic) → edge (change_topic k f topics) ≡ edge topics
  edge-change_topic =
      edge-map (λ t. if t.id == k then f t else t)
        (λ t. elim (Bool-cases (t.id == k)) [ inl h ↦ rw h (same_id t) | inr h ↦ rw h refl ])
        (λ t. elim (Bool-cases (t.id == k)) [ inl h ↦ rw h (same_next t) | inr h ↦ rw h refl ])

next_topic-put_to_sleep :
    (monitor_id dormancy_days today : ℕ) (t : Topic)
    → next_topic (put_to_sleep (is_silent monitor_id dormancy_days today) t) ≡ next_topic t
unfolding next_topic
next_topic-put_to_sleep monitor_id dormancy_days today t = ground arith

edge-mark_dormant_topics :
    (monitor_id dormancy_days today : ℕ) (w : TopicWorld)
    → edge (mark_dormant_topics monitor_id dormancy_days today w).1.topics ≡ edge w.topics
unfolding mark_dormant_topics
edge-mark_dormant_topics monitor_id dormancy_days today w =
    edge-map (put_to_sleep (is_silent monitor_id dormancy_days today)) (λ t. ground arith)
      (next_topic-put_to_sleep monitor_id dormancy_days today) w.topics

-- `get` raises and leaves the world, or goes on with the topic.
get-keeps :
    (P : TopicWorld → Type 0) (id : ℕ) (w : TopicWorld) (use_topic : Topic → Returned)
    → P w
    → ((t : Topic) → find_topic id w.topics ≡ some t → P (use_topic t).1)
    → P (get id w use_topic).1
unfolding get
get-keeps P id w use_topic before after = elim (Option-cases (find_topic id w.topics)) [
  | inl lost ↦ rw (get, lost) before
  | inr (t, found) ↦ rw (get, found) (after t found)
]

merged-Resolvable :
    (from_id into : ℕ) (topics : List Topic) (f t : Topic)
    → (from_id == into) ≡ false
    → find_topic from_id topics ≡ some f
    → find_topic into topics ≡ some t
    → is_topic_active t.status ≡ true
    → Resolvable (edge topics)
    → Resolvable (edge (merged from_id into topics))
merged-Resolvable from_id into topics f t apart there target active =
    let turned : (into == from_id) ≡ false =
      ground (arith, ==_iff from_id into, ==_iff into from_id) in
    redirected-Resolvable (edge topics) (edge (merged from_id into topics)) from_id into
      (edge-merged-from from_id into topics f there) (edge-merged-elsewhere from_id into topics)
      (edge-merged-elsewhere from_id into topics into turned
        ∙ edge-active from_id into topics t target active)

merge-Sound :
    (lineage_id from_id into : ℕ) (reason : Option ℕ) (w : TopicWorld)
    → Sound w
    → Sound (merge lineage_id from_id into reason w).1
unfolding merge get merge_into
merge-Sound lineage_id from_id into reason w sound = elim (Bool-cases (from_id == into)) [
  | inl same ↦ rw same sound
  | inr apart ↦ rw apart (
      get-keeps Sound from_id w _ sound (λ f there. get-keeps Sound into w _ sound (λ t target.
        elim (Bool-cases (is_topic_active t.status)) [
          | inr inactive ↦ rw inactive sound
          | inl active ↦ rw active (
            merged-Resolvable from_id into w.topics f t apart there target active sound.0,
            move_assignments-OneEach from_id into w.assignments sound.1,
          )
        ])))
]

reassign-Sound :
    (id document_id topic_id today : ℕ) (w : TopicWorld)
    → All (Identified (λ b. b.id) id) w.assignments
    → Sound w
    → Sound (reassign id document_id topic_id today w).1
unfolding reassign get next_topic
reassign-Sound id document_id topic_id today w fresh sound =
    elim (Bool-cases (is_some (w.documents document_id))) [
      | inr absent ↦ rw (reassign, absent) sound
      | inl there ↦ elim (Option-cases (find_topic topic_id w.topics)) [
        | inl lost ↦ rw (reassign, there, get, lost) sound
        | inr (t, found) ↦
            rw (reassign-returns id document_id topic_id today w t sound.1 there found) (
              subst Resolvable
                  (sym (
                    edge-change_topic topic_id (λ u. record u { last_seen = today }) (λ u. refl)
                      (λ u. refl) w.topics))
                  sound.0,
              manually_assigned-OneEach id document_id topic_id w.assignments sound.1 fresh,
            )
      ]
    ]

changed-Sound :
    (id : ℕ) (f : Topic → Topic) (w : TopicWorld)
    → ((t : Topic) → (f t).id ≡ t.id)
    → ((t : Topic) → next_topic (f t) ≡ next_topic t)
    → Sound w
    → Sound (record w { topics = change_topic id f w.topics })
changed-Sound id f w same_id same_next sound =
    (subst Resolvable (sym (edge-change_topic id f same_id same_next w.topics)) sound.0, sound.1)

rename-Sound :
    (strip : List ℕ → List ℕ) (id : ℕ) (label : List ℕ) (w : TopicWorld)
    → Sound w
    → Sound (rename strip id label w).1
unfolding rename next_topic
rename-Sound strip id label w sound = elim (List-cases (strip label)) [
  | inl blank ↦ rw (rename, blank) sound
  | inr (c, cs, text) ↦
      rw (rename, text)
        (get-keeps Sound id w _ sound (λ t found.
          changed-Sound id (λ u. record u { label = c ∷ cs; label_is_provisional = false }) w
            (λ u. refl) (λ u. refl) sound))
]

set_pinned-Sound : (id : ℕ) (b : Bool) (w : TopicWorld) → Sound w → Sound (set_pinned id b w).1
unfolding set_pinned next_topic
set_pinned-Sound id b w sound =
    get-keeps Sound id w _ sound (λ t found.
      changed-Sound id (λ u. record u { is_pinned = b }) w (λ u. refl) (λ u. refl) sound)

reject_split_proposal-Sound :
    (id : ℕ) (w : TopicWorld) → Sound w → Sound (reject_split_proposal id w).1
unfolding reject_split_proposal
reject_split_proposal-Sound id w sound = elim (Option-cases (find_proposal id w.proposals)) [
  | inl lost ↦ rw (reject_split_proposal, lost) sound
  | inr (p, found) ↦ rw (reject_split_proposal, found) sound
]

mark_dormant_topics-Sound :
    (monitor_id dormancy_days today : ℕ) (w : TopicWorld)
    → Sound w
    → Sound (mark_dormant_topics monitor_id dormancy_days today w).1
unfolding mark_dormant_topics
mark_dormant_topics-Sound monitor_id dormancy_days today w sound = (
  subst Resolvable (sym (edge-mark_dormant_topics monitor_id dormancy_days today w)) sound.0,
  sound.1,
)

Step-Sound : {u v : TopicWorld} → Step u v → Sound u → Sound v
Step-Sound (renamed strip id label w) sound = rename-Sound strip id label w sound
Step-Sound (pinned id b w) sound = set_pinned-Sound id b w sound
Step-Sound (merged_step lineage_id from_id into reason w) sound =
    merge-Sound lineage_id from_id into reason w sound
Step-Sound (rejected id w) sound = reject_split_proposal-Sound id w sound
Step-Sound (reassigned_step id document_id topic_id today w fresh) sound =
    reassign-Sound id document_id topic_id today w fresh sound
Step-Sound (marked monitor_id dormancy_days today w) sound =
    mark_dormant_topics-Sound monitor_id dormancy_days today w sound

-- Where every lineage ends and no document is assigned twice, this is still so after every sequence of
-- renamings, pinnings, merges, rejected splits, reassignments under unused identifiers and daily
-- passes, whether the calls return or raise.
pub Reach-Sound : (u v : TopicWorld) → Reach u v → Sound u → Sound v
Reach-Sound u v start sound = sound
Reach-Sound u v (then_step {u = x} earlier step) sound =
    Step-Sound step (Reach-Sound u x earlier sound)
