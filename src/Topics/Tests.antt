-- ===== src/Topics/Tests.antt =====
-- The topic service on a small registry.
use mlsc.Base.{
  arith, ◌≡◌, refl, ℕ, none, some, is_some, true, false, List, [], ◌∷◌, ◌==◌, ok, ◌⊎◌, any, map,
  update,
}
use mlsc.Models.{Document, play}
use mlsc.Models.Topics.{Topic, topic_active, topic_merged, clustered}
use mlsc.Topics.{
  TopicWorld, get, merge, merge_into, reassign, assignments_of, manual_assignment, rename,
  mark_dormant_topics,
}
use mlsc.Topics.Filters.{next_topic, resolve_topic}
use mlsc.Topics.Chains.{edge, Leads}
use mlsc.Topics.Assignments.{OneEach}
use mlsc.Topics.Resolution.{resolve_topic-returns, resolve_topic-Leads}
use mlsc.Topics.Reassignment.{reassign-manual}
use mlsc.Topics.Moves.{merge-moves, without_topic}
use mlsc.Topics.Requests.{Sound, Reach, start, then_step, merged_step, marked, Reach-Sound}

abbrev topic : ℕ → Topic
topic id = record {
  id = id;
  monitor_id = 1;
  label = 97 ∷ [];
  last_seen = 50;
  status = topic_active;
  merged_into = none;
  is_pinned = false;
  label_is_provisional = true;
}

abbrev old_topic : Topic
old_topic = record (topic 3) { status = topic_merged; merged_into = some 2 }

-- Two topics that were merged into each other.
abbrev cycle : List Topic
cycle = record (topic 2) { status = topic_merged; merged_into = some 3 } ∷ old_topic ∷ []

abbrev document : Document
document = record {
  id = 7;
  monitor_id = 1;
  source_name = play;
  external_id = 70;
  entity_id = 5;
  url = none;
  author_hash = 11;
  body = none;
  published_at = 40;
  rating = none;
  app_version = none;
  engagement = none;
  content_hash = 12;
}

abbrev world : TopicWorld
world = record {
  topics = topic 1 ∷ topic 2 ∷ old_topic ∷ [];
  documents = update (λ _. none) 7 (some document);
  assignments =
      record { id = 20; document_id = 7; topic_id = 2; similarity = 900000; method = clustered }
      ∷ [];
  lineage = [];
  proposals = [];
}

merged_ok : (merge 30 2 1 none world).0 ≡ ok tt
unfolding merge get merge_into
merged_ok = refl

edges : (edge world.topics 3 ≡ some (some 2)) × (edge world.topics 2 ≡ some none)
unfolding next_topic
edges = (refl, refl)

cycle_returns : resolve_topic 1 2 cycle ≡ some (ok 3)
unfolding resolve_topic mlsc.Topics.Filters.follow next_topic
cycle_returns = refl

resolve_topic-returns_example : is_some (resolve_topic 1 2 cycle) ≡ true
resolve_topic-returns_example = resolve_topic-returns 1 2 cycle

resolve_topic-Leads_example : resolve_topic 1 3 world.topics ≡ some (ok 2)
resolve_topic-Leads_example =
    resolve_topic-Leads 1 3 1 2 world.topics old_topic refl refl (2, edges.0, (edges.1, refl))

merge-moves_example :
    let w' = (merge 30 2 1 none world).1 in
    (resolve_topic 1 2 w'.topics ≡ some (ok 1))
    × (any (λ a. a.topic_id == 2) w'.assignments ≡ false)
    × (map without_topic w'.assignments ≡ map without_topic world.assignments)
    × ((n id root : ℕ)
        → Leads (edge world.topics) n id root
        → (m : ℕ) × (root' : ℕ) × Leads (edge w'.topics) m id root'
          × ((root' ≡ root) ⊎ (root' ≡ 1)))
merge-moves_example = merge-moves 30 2 1 none world (topic 2) merged_ok refl

reassign-manual_example :
    let (result, w') = reassign 31 7 1 60 world in
    (result ≡ ok tt)
    × (assignments_of 7 w'.assignments ≡ manual_assignment 31 7 1 ∷ [])
    × ((other : ℕ)
        → (other == 7) ≡ false
        → assignments_of other w'.assignments ≡ assignments_of other world.assignments)
    × OneEach w'.assignments
reassign-manual_example = reassign-manual 31 7 1 60 world (topic 1) (tt, tt) (refl, tt) refl refl

-- Every lineage of a world without merges ends where it starts.
abbrev fresh_world : TopicWorld
fresh_world = record world { topics = topic 1 ∷ topic 2 ∷ [] }

abbrev after_merge : TopicWorld
after_merge = (merge 30 2 1 none fresh_world).1

after_both : Reach fresh_world (mark_dormant_topics 1 5 60 after_merge).1
after_both =
    then_step (then_step start (merged_step 30 2 1 none fresh_world)) (marked 1 5 60 after_merge)

found_ends :
    (id : ℕ) → is_some (edge fresh_world.topics id) ≡ true → edge fresh_world.topics id ≡ some none
unfolding next_topic
found_ends id there = ground arith

fresh_world-Sound : Sound fresh_world
fresh_world-Sound = ((λ id there. (0, id, (found_ends id there, refl))), (tt, tt))

Reach-Sound_example : Sound (mark_dormant_topics 1 5 60 after_merge).1
Reach-Sound_example =
    Reach-Sound fresh_world (mark_dormant_topics 1 5 60 after_merge).1 after_both fresh_world-Sound
