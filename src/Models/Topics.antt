-- ===== src/Models/Topics.antt =====
-- mlsc/db/models.py: topics, their assignments and their lineage. A day is a number; a similarity is
-- counted in millionths.
use mlsc.Base.{ℕ, Bool, Option, List}

pub data TopicStatus : Type 0 where
  topic_active topic_dormant topic_merged topic_archived : TopicStatus

pub record Topic : Type 0 where
  pub id : ℕ
  pub monitor_id : ℕ
  -- the label's text, as its character codes
  pub label : List ℕ
  pub last_seen : ℕ
  pub status : TopicStatus
  pub merged_into : Option ℕ
  pub is_pinned : Bool
  pub label_is_provisional : Bool

pub data AssignmentMethod : Type 0 where
  centroid clustered manual : AssignmentMethod

pub record Assignment : Type 0 where
  pub id : ℕ
  pub document_id : ℕ
  pub topic_id : ℕ
  pub similarity : ℕ
  pub method : AssignmentMethod

pub data LineageEvent : Type 0 where
  merge_event refit_remap split_proposed : LineageEvent

pub record Lineage : Type 0 where
  pub id : ℕ
  pub from_topic : ℕ
  pub to_topic : Option ℕ
  pub event : LineageEvent
  pub reason : Option ℕ

pub data SplitProposalStatus : Type 0 where
  open_proposal dismissed : SplitProposalStatus

pub record SplitProposal : Type 0 where
  pub id : ℕ
  pub topic_id : ℕ
  pub status : SplitProposalStatus
