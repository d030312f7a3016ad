-- ===== src/Fetch/Throttle/Waiting.antt =====
-- When `acquire` returns.
use native.Mathlib.Decide.{dec_le}
use mlsc.Base.{
  ◌∙◌, ℕ, zero, suc, ◌+◌, ◌-◌, ◌*◌, ◌≤◌, ◌<◌, ◌≡◌, refl, Option, none, some, arith, is_some, true,
}
use mlsc.Fetch.Throttle.{
  token, HostBudget, BucketKeys, refill, wait_for, take_token, Environment, acquire,
}

-- The wait refills what is missing.
wait_for-enough : (missing rate : ℕ) → 1 ≤ rate → missing ≤ wait_for missing rate * rate
unfolding wait_for
wait_for-enough missing rate h = grind arith

pub wait_for-pos : (missing rate : ℕ) → 1 ≤ rate → 1 ≤ missing → 1 ≤ wait_for missing rate
unfolding wait_for
wait_for-pos missing rate h m = grind arith

pub refill-le_capacity :
    (budget : HostBudget) (now : ℕ) (raw_tokens raw_updated : Option ℕ)
    → refill budget now raw_tokens raw_updated ≤ budget.capacity
refill-le_capacity budget now none raw_updated = omega arith
refill-le_capacity budget now (some t) none = omega arith
refill-le_capacity budget now (some t) (some u) = omega arith

-- What a host's bucket holds at a call, before a token is taken.
abbrev pub held : HostBudget → ℕ → (now : ℕ) → BucketKeys → ℕ
held budget host now k = refill budget now (k.tokens host) (k.updated_at host)

module _ (budget : HostBudget) (host now : ℕ) (k : BucketKeys)
    (rate : 1 ≤ budget.refill_rate_per_second) where
  take_token-full : token ≤ held budget host now k → (take_token budget now host k).0 ≡ 0
  unfolding take_token
  take_token-full full = ground arith

  take_token-short :
      held budget host now k < token
      → (1 ≤ (take_token budget now host k).0)
        × (token
            ≤ held budget host now k
              + (take_token budget now host k).0 * budget.refill_rate_per_second)
        × ((take_token budget now host k).1.tokens host ≡ some (held budget host now k))
        × ((take_token budget now host k).1.updated_at host ≡ some now)
  unfolding take_token
  take_token-short short = (
    ground
        (arith, wait_for-pos (token - held budget host now k) budget.refill_rate_per_second rate),
    ground (
      arith,
      wait_for-enough (token - held budget host now k) budget.refill_rate_per_second rate,
    ),
    ground arith,
    ground arith,
  )

-- A sleep does not return early.
abbrev pub Sleeps : Environment → Type 0
Sleeps env = (now seconds : ℕ) → now + seconds ≤ env.sleep now seconds

module _ (env : Environment) (budget : HostBudget) (host : ℕ) where
  acquire-taken :
      (now : ℕ) (k : BucketKeys) (fuel : ℕ)
      → (take_token budget now host k).0 ≡ 0
      → is_some (acquire env budget host (suc fuel) now k) ≡ true
  unfolding acquire
  acquire-taken now k fuel taken = rw taken

  acquire-waiting :
      (now : ℕ) (k : BucketKeys) (fuel : ℕ)
      → 1 ≤ (take_token budget now host k).0
      → acquire env budget host (suc fuel) now k
        ≡ acquire env budget host fuel
            (env.sleep now (take_token budget now host k).0)
            (take_token budget now host k).1
  unfolding acquire
  acquire-waiting now k fuel waiting = ground arith

-- A shortage is over once the wait that it asked for has passed.
refill_after_wait :
    (budget : HostBudget) (t wait now later : ℕ)
    → now + wait ≤ later
    → token ≤ budget.capacity
    → token ≤ t + wait * budget.refill_rate_per_second
    → token ≤ refill budget later (some t) (some now)
refill_after_wait budget t wait now later passed room enough =
    let more : wait * budget.refill_rate_per_second
        ≤ (later - now) * budget.refill_rate_per_second =
      grind arith in
    omega arith

-- If sleeps do not return early, the bucket has room for a whole token and the refill rate is positive,
-- then `acquire` returns after at most one wait.
pub acquire-returns :
    (env : Environment) (budget : HostBudget) (host now : ℕ) (k : BucketKeys) (fuel : ℕ)
    → Sleeps env
    → token ≤ budget.capacity
    → 1 ≤ budget.refill_rate_per_second
    → is_some (acquire env budget host (suc (suc fuel)) now k) ≡ true
acquire-returns env budget host now k fuel sleeps room rate =
    elim (dec_le token (held budget host now k)) [
      | yes full ↦
          acquire-taken env budget host now k (suc fuel)
            (take_token-full budget host now k rate full)
      | no short ↦
          let (wait, k') = take_token budget now host k in
          let (waits, enough, tokens, updated) =
            take_token-short budget host now k rate (omega arith) in
          rw (acquire-waiting env budget host now k (suc fuel) waits) (
            acquire-taken env budget host (env.sleep now wait) k' fuel (
              take_token-full budget host (env.sleep now wait) k' rate (
                rw (tokens, updated)
                  (refill_after_wait budget _ wait now _ (sleeps now wait) room enough))))
    ]

-- If the bucket cannot hold a whole token, and the refill rate is positive, `acquire` does not return,
-- however long it is run.
pub acquire-starves :
    (env : Environment) (budget : HostBudget) (host now : ℕ) (k : BucketKeys) (fuel : ℕ)
    → budget.capacity < token
    → 1 ≤ budget.refill_rate_per_second
    → acquire env budget host fuel now k ≡ none
unfolding acquire
acquire-starves env budget host now k zero small rate = refl
acquire-starves env budget host now k (suc fuel) small rate =
    let (wait, k') = take_token budget now host k in
    let full = refill-le_capacity budget now (k.tokens host) (k.updated_at host) in
    let (waits, _, _, _) = take_token-short budget host now k rate (omega (arith, full)) in
    acquire-waiting env budget host now k fuel waits
    ∙ acquire-starves env budget host (env.sleep now wait) k' fuel small rate
