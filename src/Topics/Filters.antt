-- ===== src/Topics/Filters.antt =====
-- mlsc/application/filters.py: a topic filter follows merges to the topic that survives.
use mlsc.Base.{
  any, ◌&&◌, ℕ, zero, suc, Option, none, some, true, false, List, [], ◌∷◌, ◌==◌, Result, ok, err,
  if◌then◌else◌, length, contains,
}
use mlsc.Models.{SourceName, MonitorSource}
use mlsc.Models.Topics.{Topic}
use mlsc.Ingest.Rows.{same_source}
use mlsc.Topics.{find_topic, is_topic_merged}

-- The topic that a topic's lineage goes on to.
unfoldable pub next_topic : Topic → Option ℕ
next_topic t = if is_topic_merged t.status then t.merged_into else none

-- `attribute_error` is raised by `topic.id` where `topic` became `None`.
pub data ResolveError : Type 0 where
  filter_unknown attribute_error : ResolveError

-- The loop of `resolve_topic`. Nothing is returned where the fuel is spent.
unfoldable pub follow :
    (fuel : ℕ) → List Topic → (seen : List ℕ) → Topic → Option (Result ResolveError ℕ)
follow zero topics seen t = none
follow (suc fuel) topics seen t = elim (next_topic t) [
  | none ↦ some (ok t.id)
  | some into ↦ elim (contains seen into) [
    | true ↦ some (ok t.id)
    | false ↦ elim (find_topic into topics) [
      | none ↦ some (err attribute_error)
      | some u ↦ follow fuel topics (u.id ∷ seen) u
    ]
  ]
]

-- `resolve_topic`, on fuel for each topic.
unfoldable pub resolve_topic :
    (monitor_id topic_id : ℕ) → List Topic → Option (Result ResolveError ℕ)
resolve_topic monitor_id topic_id topics = elim (find_topic topic_id topics) [
  | none ↦ some (err filter_unknown)
  | some t ↦
      if t.monitor_id == monitor_id
      then follow (length topics) topics (t.id ∷ []) t
      else some (err filter_unknown)
]

unfoldable pub resolve_source :
    (monitor_id : ℕ) → SourceName → List MonitorSource → Result ResolveError SourceName
resolve_source monitor_id name sources =
    if any (λ s. (s.monitor_id == monitor_id) && same_source s.source_name name) sources
    then ok name
    else err filter_unknown
