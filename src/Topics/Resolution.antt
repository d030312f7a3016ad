-- ===== src/Topics/Resolution.antt =====
-- `resolve_topic` ends, and finds the topic that survives.
use mlsc.Base.{
  ◌≡◌, ◌∙◌, refl, sym, subst, ℕ, zero, suc, ◌<◌, ◌≤◌, Option, none, some, is_some, true, false, not,
  List, [], ◌∷◌, ◌==◌, ==_iff, arith, inl, inr, Bool-cases, Option-cases, if◌then◌else◌, length,
  filter, contains, All, ok, length-filter-le,
}
use mlsc.Models.Topics.{Topic}
use mlsc.Topics.{find_topic}
use mlsc.Topics.Filters.{next_topic, follow, resolve_topic}
use mlsc.Topics.Chains.{edge, Leads, Leads-unique, find_topic-id}

-- The topics that the loop has not yet visited.
abbrev unseen : List ℕ → List Topic → ℕ
unseen seen topics = length (filter (λ t. not (contains seen t.id)) topics)

unseen-le :
    (j : ℕ) (seen : List ℕ) (topics : List Topic) → unseen (j ∷ seen) topics ≤ unseen seen topics
unseen-le j seen [] = omega arith
unseen-le j seen (t ∷ rest) = ground (arith, unseen-le j seen rest)

unseen-less :
    (j : ℕ) (seen : List ℕ) (topics : List Topic) (u : Topic)
    → find_topic j topics ≡ some u
    → contains seen j ≡ false
    → unseen (j ∷ seen) topics < unseen seen topics
unseen-less j seen [] u found new = absurd cc
unseen-less j seen (t ∷ rest) u found new = elim (Bool-cases (t.id == j)) [
  | inl h ↦
      let same : t.id ≡ j = (==_iff t.id j).0 h in
      let here : (j == t.id) ≡ true = (==_iff j t.id).1 (sym same) in
      let new' : contains seen t.id ≡ false = subst (λ k. contains seen k ≡ false) (sym same) new in
      rw (here, new') (omega (arith, unseen-le j seen rest))
  | inr h ↦
      let later =
        unseen-less j seen rest u
          (subst (λ b. (if b then some t else find_topic j rest) ≡ some u) h found) new in
      let apart : (j == t.id) ≡ false = ground (arith, ==_iff j t.id, ==_iff t.id j) in
      rw apart (ground arith)
]

follow-returns :
    (fuel : ℕ) (topics : List Topic) (seen : List ℕ) (t : Topic)
    → unseen seen topics < fuel
    → is_some (follow fuel topics seen t) ≡ true
unfolding follow
follow-returns zero topics seen t enough = absurd (omega arith)
follow-returns (suc fuel) topics seen t enough = elim (Option-cases (next_topic t)) [
  | inl ends ↦ rw (follow, ends) refl
  | inr (into, goes_on) ↦ elim (Bool-cases (contains seen into)) [
    | inl again ↦ rw (follow, goes_on, again) refl
    | inr new ↦ elim (Option-cases (find_topic into topics)) [
      | inl lost ↦ rw (follow, goes_on, new, lost) refl
      | inr (u, found) ↦
          let same : u.id ≡ into = find_topic-id into topics u found in
          let visited = unseen-less into seen topics u found new in
          rw (follow, goes_on, new, found)
            (follow-returns fuel topics (u.id ∷ seen) u
              (subst (λ k. unseen (k ∷ seen) topics < fuel) (sym same) (omega arith)))
    ]
  ]
]

nothing_seen : (topics : List Topic) → unseen [] topics ≤ length topics
nothing_seen topics = length-filter-le (λ t. not (contains [] t.id)) topics

-- For all topics, `resolve_topic` returns or raises within as many rounds as there are topics, even if
-- the merges form a cycle.
pub resolve_topic-returns :
    (monitor_id topic_id : ℕ) (topics : List Topic)
    → is_some (resolve_topic monitor_id topic_id topics) ≡ true
unfolding resolve_topic
resolve_topic-returns monitor_id topic_id topics =
    elim (Option-cases (find_topic topic_id topics)) [
      | inl lost ↦ rw (resolve_topic, lost) refl
      | inr (t, found) ↦ elim (Bool-cases (t.monitor_id == monitor_id)) [
        | inr other ↦ rw (resolve_topic, found, other) refl
        | inl own ↦
            let same = find_topic-id topic_id topics t found in
            let visited = unseen-less topic_id [] topics t found refl in
            rw (resolve_topic, found, own)
              (follow-returns (length topics) topics (t.id ∷ []) t (
                subst (λ k. unseen (k ∷ []) topics < length topics) (sym same)
                  (omega (arith, nothing_seen topics))))
      ]
    ]

-- The visited topics are at least as far from the end as the loop is.
abbrev Behind : (ℕ → Option (Option ℕ)) → ℕ → ℕ → List ℕ → Type 0
Behind e n root seen = All (λ s. (m : ℕ) × (n ≤ m) × Leads e m s root) seen

Behind-later :
    (e : ℕ → Option (Option ℕ)) (n root : ℕ) (seen : List ℕ)
    → Behind e (suc n) root seen
    → Behind e n root seen
Behind-later e n root [] h = tt
Behind-later e n root (s ∷ rest) ((m, less, chain), h) =
    ((m, omega arith, chain), Behind-later e n root rest h)

-- So none of them is where the loop goes on.
Behind-new :
    (e : ℕ → Option (Option ℕ)) (n root into : ℕ) (seen : List ℕ)
    → Leads e n into root
    → Behind e (suc n) root seen
    → contains seen into ≡ false
Behind-new e n root into [] chain h = refl
Behind-new e n root into (s ∷ rest) chain ((m, less, passed), h) = elim (Bool-cases (s == into)) [
  | inl here ↦
      let same : s ≡ into = (==_iff s into).0 here in
      let (steps, ends) =
        Leads-unique e m n into root root (subst (λ k. Leads e m k root) same passed) chain in
      absurd (omega arith)
  | inr apart ↦ rw apart (Behind-new e n root into rest chain h)
]

module _ (topics : List Topic) where
  edge_of-found :
      (t : Topic) → find_topic t.id topics ≡ some t → edge topics t.id ≡ some (next_topic t)
  edge_of-found t found = rw (edge, found) refl

  found-edge :
      (into : ℕ) (next : Option ℕ)
      → edge topics into ≡ some next
      → (u : Topic) × (find_topic into topics ≡ some u)
  found-edge into next there = elim (Option-cases (find_topic into topics)) [
    | inl lost ↦ absurd (ground (arith, lost))
    | inr found ↦ found
  ]

  target_found :
      (n into root : ℕ)
      → Leads (edge topics) n into root
      → (u : Topic) × (find_topic into topics ≡ some u)
  target_found zero into root (ends, same) = found-edge into none ends
  target_found (suc n) into root (next, goes_on, chain) = found-edge into (some next) goes_on

  follow-Leads :
      (fuel n root : ℕ) (seen : List ℕ) (t : Topic)
      → is_some (follow fuel topics seen t) ≡ true
      → find_topic t.id topics ≡ some t
      → Leads (edge topics) n t.id root
      → Behind (edge topics) n root seen
      → follow fuel topics seen t ≡ some (ok root)
  unfolding follow
  follow-Leads zero n root seen t done found chain behind = absurd cc
  follow-Leads (suc fuel) zero root seen t done found (ends, same) behind =
      let last : next_topic t ≡ none = cc in rw (follow, last, same) refl
  follow-Leads (suc fuel) (suc n) root seen t done found (into, goes_on, chain) behind =
      let next : next_topic t ≡ some into = cc in
      let new = Behind-new (edge topics) n root into seen chain behind in
      let (u, there) = target_found n into root chain in
      let same : u.id ≡ into = find_topic-id into topics u there in
      let step : follow (suc fuel) topics seen t ≡ follow fuel topics (u.id ∷ seen) u =
        rw (follow, next, new, there) refl in
      let chain' : Leads (edge topics) n u.id root =
        subst (λ k. Leads (edge topics) n k root) (sym same) chain in
      step
      ∙ follow-Leads fuel n root (u.id ∷ seen) u (subst (λ r. is_some r ≡ true) step done)
          (subst (λ k. find_topic k topics ≡ some u) (sym same) there) chain'
          ((n, omega arith, chain'), Behind-later (edge topics) n root seen behind)

-- If the topic belongs to the monitor and its lineage ends, after any number of merges, at `root`, then
-- `resolve_topic` returns `root`.
pub resolve_topic-Leads :
    (monitor_id topic_id n root : ℕ) (topics : List Topic) (t : Topic)
    → find_topic topic_id topics ≡ some t
    → t.monitor_id ≡ monitor_id
    → Leads (edge topics) n topic_id root
    → resolve_topic monitor_id topic_id topics ≡ some (ok root)
unfolding resolve_topic
resolve_topic-Leads monitor_id topic_id n root topics t found own chain =
    let same = find_topic-id topic_id topics t found in
    let own' = (==_iff t.monitor_id monitor_id).1 own in
    let chain' : Leads (edge topics) n t.id root =
      subst (λ k. Leads (edge topics) n k root) (sym same) chain in
    let loop : resolve_topic monitor_id topic_id topics
        ≡ follow (length topics) topics (t.id ∷ []) t =
      rw (resolve_topic, found, own') refl in
    loop
    ∙ follow-Leads topics (length topics) n root (t.id ∷ []) t
        (subst (λ r. is_some r ≡ true) loop (resolve_topic-returns monitor_id topic_id topics))
        (subst (λ k. find_topic k topics ≡ some t) (sym same) found) chain'
        ((n, omega arith, chain'), tt)
