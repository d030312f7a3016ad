-- ===== src/Fetch/Throttle.antt =====
-- mlsc/core/fetch/throttle.py: a token bucket for each host in Redis. Tokens are counted in
-- thousandths and times in whole ticks; a wait that is no whole number of ticks is rounded up.
pub mod Waiting
pub mod Rate
use mlsc.Base.{
  ℕ, zero, suc, ◌+◌, ◌-◌, ◌*◌, ◌/◌, Option, none, some, Store, update, ltb, leb, ◌==◌, min,
  if◌then◌else◌,
}

-- One token.
abbrev pub token : ℕ
token = 1000

pub record HostBudget : Type 0 where
  pub capacity : ℕ
  pub refill_rate_per_second : ℕ
  pub jitter_low_seconds : ℕ
  pub jitter_high_seconds : ℕ

-- The Redis keys under the throttle's prefix, each family by host.
pub record BucketKeys : Type 0 where
  pub tokens : Store ℕ
  pub updated_at : Store ℕ

abbrev pub refill : HostBudget → (now : ℕ) → Option ℕ → Option ℕ → ℕ
refill budget now (some raw_tokens) (some raw_updated) =
    min budget.capacity (raw_tokens + (now - raw_updated) * budget.refill_rate_per_second)
refill budget now _ _ = budget.capacity

-- `missing / rate`, rounded up.
unfoldable pub wait_for : (missing rate : ℕ) → ℕ
wait_for missing rate = (missing + (rate - 1)) / rate

-- Returns the seconds to wait: none if a token was taken.
unfoldable pub take_token : HostBudget → (now : ℕ) → ℕ → BucketKeys → ℕ × BucketKeys
take_token budget now host k =
    let tokens = refill budget now (k.tokens host) (k.updated_at host) in
    let taken = leb token tokens in
    let left = if taken then tokens - token else tokens in
    (
      if taken then 0 else wait_for (token - tokens) budget.refill_rate_per_second,
      record {
        tokens = update k.tokens host (some left);
        updated_at = update k.updated_at host (some now);
      },
    )

-- The injected clock and random source: `sleep now s` is the time at which a sleep of `s` seconds
-- that began at `now` returns.
pub record Environment : Type 0 where
  pub sleep : ℕ → ℕ → ℕ
  pub uniform : ℕ → ℕ → ℕ

-- The `while True` of `acquire` on fuel, then the jittered gap. Returns the time at which it
-- returns, or nothing if the fuel ran out.
unfoldable pub acquire :
    Environment → HostBudget → ℕ → (fuel now : ℕ) → BucketKeys → Option (ℕ × BucketKeys)
acquire env budget host zero now k = none
acquire env budget host (suc fuel) now k =
    let (wait, k') = take_token budget now host k in
    let rest = acquire env budget host fuel (env.sleep now wait) k' in
    let jitter = env.uniform budget.jitter_low_seconds budget.jitter_high_seconds in
    if wait == 0 then some (if ltb 0 jitter then env.sleep now jitter else now, k') else rest
