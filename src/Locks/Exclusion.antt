-- ===== src/Locks/Exclusion.antt =====
-- What holding the run lock means.
use mlsc.Base.{
  ==_refl, ==_iff, ◌⊎◌, sym, ◌∙◌, ap, ℕ, ◌+◌, ◌<◌, ◌≡◌, ◌≢◌, refl, none, some, Bool, true, false,
  lt→ltb, ◌==◌, List, [], ◌∷◌, arith, ok, err, All, Bool-cases, inl, inr, Option-cases,
}
use mlsc.Locks.{
  release_script, RunKey, same_bool, same_key, Locks, update_lock, lock_lost, current_token,
  acquire, release,
}

same_bool-eq : (a b : Bool) → same_bool a b ≡ true → a ≡ b
same_bool-eq true b same = sym same
same_bool-eq false true same = cc
same_bool-eq false false same = refl

pub same_key-eq : (a b : RunKey) → same_key a b ≡ true → a ≡ b
same_key-eq a b same =
    let ids : a.monitor_id ≡ b.monitor_id = ground arith in
    let dates : a.run_date ≡ b.run_date = ground arith in
    let modes : same_bool a.is_backfill b.is_backfill ≡ true = ground arith in
    λ i. record {
      monitor_id = ids i;
      run_date = dates i;
      is_backfill = same_bool-eq a.is_backfill b.is_backfill modes i;
    }

pub same_key_refl : (a : RunKey) → same_key a a ≡ true
same_key_refl a = elim (Bool-cases a.is_backfill) [
  | inl h ↦ rw h (ground arith)
  | inr h ↦ rw h (ground arith)
]

-- What anyone may do with the locks, and the passing of time.
pub data Action : Type 0 where
  acquired : RunKey → (token ttl_seconds : ℕ) → Action
  released : RunKey → (token : ℕ) → Action
  passed : (seconds : ℕ) → Action

pub record Shared : Type 0 where
  pub locks : Locks
  pub now : ℕ

abbrev pub act : Action → Shared → Shared
act (acquired key token ttl) w = record w { locks = (acquire token ttl w.now key w.locks).1 }
act (released key token) w = record w { locks = (release w.now token key w.locks).1 }
act (passed seconds) w = record w { now = w.now + seconds }

pub act_all : List Action → Shared → Shared
act_all [] w = w
act_all (a ∷ rest) w = act_all rest (act a w)

abbrev pub seconds_of : Action → ℕ
seconds_of (passed seconds) = seconds
seconds_of _ = 0

abbrev pub elapsed : List Action → ℕ
elapsed [] = 0
elapsed (a ∷ rest) = seconds_of a + elapsed rest

-- The action is no release of the key by that token's holder.
abbrev pub Keeps : RunKey → ℕ → Action → Type 0
Keeps key token (released other used) = (same_key key other ≡ false) ⊎ (used ≢ token)
Keeps key token _ = Unit

pub release-held :
    (now token : ℕ) (key : RunKey) (locks : Locks)
    → current_token now key locks ≡ some token
    → release now token key locks ≡ (ok tt, update_lock locks key none)
unfolding release
release-held now token key locks held = rw (release, release_script, held) (rw (==_refl token) refl)

pub release-lost :
    (now token : ℕ) (key : RunKey) (locks : Locks)
    → current_token now key locks ≢ some token
    → release now token key locks ≡ (err (lock_lost key), locks)
unfolding release
release-lost now token key locks lost = elim (Option-cases (current_token now key locks)) [
  | inl h ↦ rw (release, release_script, h) refl
  | inr (held, h) ↦ elim (Bool-cases (held == token)) [
    | inl e ↦ absurd (lost (h ∙ ap some ((==_iff held token).0 e)))
    | inr e ↦ rw (release, release_script, h) (rw e refl)
  ]
]

-- Either way of acquiring, and either of releasing, leaves the other keys alone.
acquire-other :
    (token ttl now : ℕ) (key other : RunKey) (locks : Locks)
    → same_key other key ≡ false
    → (acquire token ttl now key locks).1 other ≡ locks other
unfolding acquire
acquire-other token ttl now key other locks apart =
    elim (Option-cases (current_token now key locks)) [
      | inl h ↦ rw (acquire, h) (rw apart refl)
      | inr (held, h) ↦ rw (acquire, h) refl
    ]

pub release-other :
    (token now : ℕ) (key other : RunKey) (locks : Locks)
    → same_key other key ≡ false
    → (release now token key locks).1 other ≡ locks other
release-other token now key other locks apart = elim (Option-cases (current_token now key locks)) [
  | inl h ↦ rw (release-lost now token key locks (λ e. cc)) refl
  | inr (held, h) ↦ elim (Bool-cases (held == token)) [
    | inl e ↦
        rw (release-held now token key locks (h ∙ ap some ((==_iff held token).0 e)))
          (rw apart refl)
    | inr e ↦ rw (release-lost now token key locks (λ f. ground (arith))) refl
  ]
]

pub acquire-free :
    (token ttl now : ℕ) (key : RunKey) (locks : Locks)
    → current_token now key locks ≡ none
    → acquire token ttl now key locks ≡ (
      some token,
      update_lock locks key (some (record { token = token; expires_at = now + ttl })),
    )
unfolding acquire
acquire-free token ttl now key locks free = rw (acquire, free) refl

pub acquire-busy :
    (token ttl now : ℕ) (key : RunKey) (locks : Locks) (held : ℕ)
    → current_token now key locks ≡ some held
    → acquire token ttl now key locks ≡ (none, locks)
unfolding acquire
acquire-busy token ttl now key locks held busy = rw (acquire, busy) refl

module _ (key : RunKey) (token expires_at : ℕ) where
  abbrev HeldBy : Locks → Type 0
  HeldBy locks = locks key ≡ some (record { token = token; expires_at = expires_at })

  current_token-HeldBy :
      (now : ℕ) (locks : Locks)
      → HeldBy locks
      → now < expires_at
      → current_token now key locks ≡ some token
  unfolding current_token
  current_token-HeldBy now locks held early =
      rw (current_token, held) (rw (lt→ltb now expires_at early) refl)

  -- The locks after an action on another key, or after one that found the key held.
  act-HeldBy :
      (a : Action) (w : Shared)
      → HeldBy w.locks
      → w.now < expires_at
      → Keeps key token a
      → HeldBy (act a w).locks
  act-HeldBy (passed seconds) w held early keeps = held
  act-HeldBy (acquired other used ttl) w held early keeps = elim (Bool-cases (same_key key other)) [
    | inl same ↦
        rw
          (
            sym (same_key-eq key other same),
            acquire-busy used ttl w.now key w.locks token
                (current_token-HeldBy w.now w.locks held early),
          )
          held
    | inr apart ↦ acquire-other used ttl w.now other key w.locks apart ∙ held
  ]
  act-HeldBy (released other used) w held early (inl apart) =
      release-other used w.now other key w.locks apart ∙ held
  act-HeldBy (released other used) w held early (inr stranger) =
      elim (Bool-cases (same_key key other)) [
        | inl same ↦
            rw
              (
                sym (same_key-eq key other same),
                release-lost w.now used key w.locks (λ e.
                    let now_held = current_token-HeldBy w.now w.locks held early in stranger cc),
              )
              held
        | inr apart ↦ release-other used w.now other key w.locks apart ∙ held
      ]

  current_token-act_all :
      (actions : List Action) (w : Shared)
      → HeldBy w.locks
      → w.now + elapsed actions < expires_at
      → All (Keeps key token) actions
      → current_token (act_all actions w).now key (act_all actions w).locks ≡ some token
  unfolding act_all
  current_token-act_all [] w held early keeps =
      current_token-HeldBy w.now w.locks held (omega arith)
  current_token-act_all (a ∷ rest) w held early (keeps, later) =
      current_token-act_all rest (act a w) (act-HeldBy a w held (omega arith) keeps) (ground arith)
        later

-- Mutual exclusion: after a token acquired a free lock, whatever is acquired and released by others
-- meanwhile, of any keys, as long as the time to live has not passed and the holder has not released
-- it, the token still holds the lock, and nobody acquires it.
pub acquire-excludes :
    (key : RunKey) (token ttl : ℕ) (w : Shared) (actions : List Action) (other other_ttl : ℕ)
    → current_token w.now key w.locks ≡ none
    → elapsed actions < ttl
    → All (Keeps key token) actions
    → let (taken, locks) = acquire token ttl w.now key w.locks in
      let later = act_all actions (record w { locks = locks }) in
      (taken ≡ some token)
      × (current_token later.now key later.locks ≡ some token)
      × (acquire other other_ttl later.now key later.locks ≡ (none, later.locks))
acquire-excludes key token ttl w actions other other_ttl free early keeps =
    let acquired = acquire-free token ttl w.now key w.locks free in
    let locks = (acquire token ttl w.now key w.locks).1 in
    let later = act_all actions (record w { locks = locks }) in
    let held =
      current_token-act_all key token (w.now + ttl) actions (record w { locks = locks })
        (rw acquired (rw (same_key_refl key) refl)) (omega arith) keeps in
    (
      ap (λ r. r.0) acquired,
      held,
      acquire-busy other other_ttl later.now key later.locks token held,
    )
