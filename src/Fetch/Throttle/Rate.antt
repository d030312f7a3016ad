-- ===== src/Fetch/Throttle/Rate.antt =====
-- How fast tokens are handed out.
use mlsc.Base.{
  ℕ, ◌+◌, ◌-◌, ◌*◌, ◌≤◌, ◌≡◌, some, List, [], ◌∷◌, arith, ◌==◌, if◌then◌else◌, leb, sum_by,
}
use mlsc.Fetch.Throttle.{token, HostBudget, BucketKeys, take_token}
use mlsc.Fetch.Throttle.Waiting.{refill-le_capacity, held, wait_for-pos}

-- One if the call took a token.
abbrev taken : HostBudget → ℕ → (now : ℕ) → BucketKeys → ℕ
taken budget host now k = if (take_token budget now host k).0 == 0 then 1 else 0

-- The tokens taken by calls for one host, each after the given gap from the one before.
abbrev granted_after : HostBudget → ℕ → (now : ℕ) → List ℕ → BucketKeys → ℕ
granted_after budget host now [] k = 0
granted_after budget host now (gap ∷ gaps) k =
    taken budget host (now + gap) k
    + granted_after budget host (now + gap) gaps (take_token budget (now + gap) host k).1

-- The tokens taken by a call at `now` and by one after each gap.
abbrev pub granted : HostBudget → ℕ → (now : ℕ) → List ℕ → BucketKeys → ℕ
granted budget host now gaps k =
    taken budget host now k + granted_after budget host now gaps (take_token budget now host k).1

abbrev pub elapsed : List ℕ → ℕ
elapsed = sum_by (λ gap. gap)

module _ (budget : HostBudget) (host : ℕ) (rate : 1 ≤ budget.refill_rate_per_second) where
  -- What a call leaves in the bucket, with what it took, is what the bucket held.
  take_token-spends :
      (now : ℕ) (k : BucketKeys)
      → (left : ℕ) × ((take_token budget now host k).1.tokens host ≡ some left)
        × ((take_token budget now host k).1.updated_at host ≡ some now)
        × (taken budget host now k * token + left ≡ held budget host now k)
  unfolding take_token
  take_token-spends now k = (
    if leb token (held budget host now k)
        then held budget host now k - token
        else held budget host now k,
    ground arith,
    ground arith,
    ground
        (arith, wait_for-pos (token - held budget host now k) budget.refill_rate_per_second rate),
  )

  granted_after-le :
      (gaps : List ℕ) (now t : ℕ) (k : BucketKeys)
      → k.tokens host ≡ some t
      → k.updated_at host ≡ some now
      → granted_after budget host now gaps k * token
        ≤ t + elapsed gaps * budget.refill_rate_per_second
  granted_after-le [] now t k et eu = omega arith
  granted_after-le (gap ∷ gaps) now t k et eu =
      let (left, tokens, updated, spent) = take_token-spends (now + gap) k in
      let rest =
        granted_after-le gaps (now + gap) left (take_token budget (now + gap) host k).1 tokens
          updated in
      let had : held budget host (now + gap) k ≤ t + gap * budget.refill_rate_per_second =
        rw (et, eu) (grind arith) in
      grind arith

-- If the refill rate is positive, then whatever the bucket held at first and however the calls are timed, the tokens taken from the
-- first call to the last are at most the capacity and what the refill rate adds in between.
pub granted-le :
    (budget : HostBudget) (host now : ℕ) (gaps : List ℕ) (k : BucketKeys)
    → 1 ≤ budget.refill_rate_per_second
    → granted budget host now gaps k * token
      ≤ budget.capacity + elapsed gaps * budget.refill_rate_per_second
granted-le budget host now gaps k rate =
    let (left, tokens, updated, spent) = take_token-spends budget host rate now k in
    let rest =
      granted_after-le budget host rate gaps now left (take_token budget now host k).1 tokens
        updated in
    let full = refill-le_capacity budget now (k.tokens host) (k.updated_at host) in grind arith
