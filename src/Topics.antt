-- ===== src/Topics.antt =====
-- mlsc/application/topics.py: `TopicService`, by which a person renames, pins, merges and reassigns.
-- mlsc/repositories/topics.py: `get`, `touch_last_seen` and the lineage rows.
-- The database is the state; the day and the identifier of a new row are arguments. Each call is one
-- transaction.
pub mod Filters
pub mod Resolution
pub mod Chains
pub mod Merging
pub mod Assignments
pub mod Reassignment
pub mod Moves
pub mod Requests
mod Tests
use mlsc.Base.{
  ℕ, zero, suc, ◌+◌, Option, none, some, Bool, true, false, ◌&&◌, not, List, [], ◌∷◌, map, ◌==◌,
  Result, ok, err, if◌then◌else◌, Store, filter, length, contains, is_some, ltb,
}
use mlsc.Models.{Document}
use mlsc.Models.Topics.{
  TopicStatus, topic_active, topic_dormant, topic_merged, Topic, manual, Assignment, merge_event,
  Lineage, dismissed, SplitProposal,
}
use mlsc.Runs.{scalar_one_or_none}

pub record TopicWorld : Type 0 where
  pub topics : List Topic
  pub documents : Store Document
  pub assignments : List Assignment
  -- the latest first
  pub lineage : List Lineage
  pub proposals : List SplitProposal

-- What a call raises. `multiple_results` is SQLAlchemy's, of `scalar_one_or_none`.
pub data TopicError : Type 0 where
  blank_label merges_into_itself multiple_results : TopicError
  topic_not_found : (topic_id : ℕ) → TopicError
  merge_target_inactive : (topic_id : ℕ) → TopicError
  document_not_found : (document_id : ℕ) → TopicError
  split_proposal_not_found : (proposal_id : ℕ) → TopicError

abbrev pub Returned : Type 0
Returned = Result TopicError (Unit {0}) × TopicWorld

-- `session.get(Topic, …)`
abbrev pub find_topic : ℕ → List Topic → Option Topic
find_topic id [] = none
find_topic id (t ∷ rest) = let later = find_topic id rest in if t.id == id then some t else later

-- The topics after the row of one identifier was changed.
abbrev pub change_topic : ℕ → (Topic → Topic) → List Topic → List Topic
change_topic id f topics = map (λ t. if t.id == id then f t else t) topics

abbrev pub is_topic_active : TopicStatus → Bool
is_topic_active topic_active = true
is_topic_active _ = false

abbrev pub is_topic_merged : TopicStatus → Bool
is_topic_merged topic_merged = true
is_topic_merged _ = false

-- `TopicRepository.get`, and what the call does with the topic.
unfoldable pub get : ℕ → TopicWorld → (Topic → Returned) → Returned
get id w use_topic = elim (find_topic id w.topics) [
  | none ↦ (err (topic_not_found id), w)
  | some t ↦ use_topic t
]

-- `TopicService.rename`; `strip` is Python's `str.strip`.
unfoldable pub rename : (strip : List ℕ → List ℕ) → ℕ → List ℕ → TopicWorld → Returned
rename strip id label w = elim (strip label) [
  | [] ↦ (err blank_label, w)
  | (c ∷ cs) ↦ get id w (λ _. (
    ok tt,
    record w {
      topics =
          change_topic id (λ t. record t { label = c ∷ cs; label_is_provisional = false }) w.topics;
    },
  ))
]

-- `TopicService.set_pinned`
unfoldable pub set_pinned : ℕ → Bool → TopicWorld → Returned
set_pinned id pinned w = get id w (λ _.
    (ok tt, record w { topics = change_topic id (λ t. record t { is_pinned = pinned }) w.topics }))

-- The update of the assignments in `merge`.
abbrev pub move_assignments : (from_id into : ℕ) → List Assignment → List Assignment
move_assignments from_id into assignments =
    map (λ a. if a.topic_id == from_id then record a { topic_id = into } else a) assignments

abbrev pub merged_topic : (into : ℕ) → Topic → Topic
merged_topic into t = record t { status = topic_merged; merged_into = some into }

abbrev pub merged : (from_id into : ℕ) → List Topic → List Topic
merged from_id into topics = change_topic from_id (merged_topic into) topics

-- What `merge` writes.
abbrev pub merged_world : (lineage_id from_id into : ℕ) → Option ℕ → TopicWorld → TopicWorld
merged_world lineage_id from_id into reason w = record w {
  topics = merged from_id into w.topics;
  assignments = move_assignments from_id into w.assignments;
  lineage =
      record {
        id = lineage_id;
        from_topic = from_id;
        to_topic = some into;
        event = merge_event;
        reason = reason;
      }
      ∷ w.lineage;
}

-- `merge` once both topics are known.
unfoldable pub merge_into : (lineage_id from_id into : ℕ) → Option ℕ → TopicWorld → Topic → Returned
merge_into lineage_id from_id into reason w target =
    if is_topic_active target.status
    then (ok tt, merged_world lineage_id from_id into reason w)
    else (err (merge_target_inactive into), w)

-- `TopicService.merge`
unfoldable pub merge : (lineage_id from_id into : ℕ) → Option ℕ → TopicWorld → Returned
merge lineage_id from_id into reason w =
    if from_id == into
    then (err merges_into_itself, w)
    else get from_id w (λ _. get into w (merge_into lineage_id from_id into reason w))

-- `session.get(SplitProposal, …)`
abbrev pub find_proposal : ℕ → List SplitProposal → Option SplitProposal
find_proposal id [] = none
find_proposal id (p ∷ rest) =
    let later = find_proposal id rest in if p.id == id then some p else later

-- `TopicService.reject_split_proposal`
unfoldable pub reject_split_proposal : ℕ → TopicWorld → Returned
reject_split_proposal id w = elim (find_proposal id w.proposals) [
  | none ↦ (err (split_proposal_not_found id), w)
  | some _ ↦ (
    ok tt,
    record w {
      proposals = map (λ p. if p.id == id then record p { status = dismissed } else p) w.proposals;
    },
  )
]

-- `select(Assignment).where(Assignment.document_id == …)`
abbrev pub assignments_of : (document_id : ℕ) → List Assignment → List Assignment
assignments_of document_id assignments = filter (λ a. a.document_id == document_id) assignments

-- The row that `reassign` adds; its similarity is 1.0.
abbrev pub manual_assignment : (id document_id topic_id : ℕ) → Assignment
manual_assignment id document_id topic_id = record {
  id = id;
  document_id = document_id;
  topic_id = topic_id;
  similarity = 1000000;
  method = manual;
}

-- `session.delete(existing)`
abbrev pub delete_assignment : Option Assignment → List Assignment → List Assignment
delete_assignment none assignments = assignments
delete_assignment (some a) assignments = filter (λ b. not (b.id == a.id)) assignments

-- `reassign`, given what the query for the document's assignment returned.
abbrev pub reassigned :
    (id document_id topic_id today : ℕ) → TopicWorld → Option (Option Assignment) → Returned
reassigned id document_id topic_id today w none = (err multiple_results, w)
reassigned id document_id topic_id today w (some existing) = (
  ok tt,
  record w {
    assignments =
        manual_assignment id document_id topic_id ∷ delete_assignment existing w.assignments;
    topics = change_topic topic_id (λ t. record t { last_seen = today }) w.topics;
  },
)

-- `TopicService.reassign`
unfoldable pub reassign : (id document_id topic_id today : ℕ) → TopicWorld → Returned
reassign id document_id topic_id today w =
    if is_some (w.documents document_id)
    then get topic_id w (λ _.
      reassigned id document_id topic_id today w
        (scalar_one_or_none (assignments_of document_id w.assignments)))
    else (err (document_not_found document_id), w)

-- mlsc/tasks/topics.py: `mark_dormant_topics`, with the number of topics that it marks. A topic is
-- silent if it was last seen before the day that lies the dormancy days back.
abbrev pub is_silent : (monitor_id dormancy_days today : ℕ) → Topic → Bool
is_silent monitor_id dormancy_days today t =
    (t.monitor_id == monitor_id)
    && (is_topic_active t.status && ltb (t.last_seen + dormancy_days) today)

abbrev pub put_to_sleep : (silent : Topic → Bool) → Topic → Topic
put_to_sleep silent t = if silent t then record t { status = topic_dormant } else t

unfoldable pub mark_dormant_topics :
    (monitor_id dormancy_days today : ℕ) → TopicWorld → ℕ × TopicWorld
mark_dormant_topics monitor_id dormancy_days today w =
    let silent = is_silent monitor_id dormancy_days today in
    (length (filter silent w.topics), record w { topics = map (put_to_sleep silent) w.topics })
