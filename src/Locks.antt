-- ===== src/Locks.antt =====
-- mlsc/core/locks.py: the run lock in Redis. The key's text holds a monitor's id, a date and whether
-- the run is a backfill, and differs if any of them does, so the key is the record of these three. A
-- token, a random UUID, is an argument of `acquire`. Times are clock readings in whole ticks.
pub mod Exclusion
mod Tests
use mlsc.Base.{
  ℕ, ◌+◌, Option, none, some, Bool, true, false, not, ◌&&◌, Result, ok, err, ltb, ◌==◌,
  if◌then◌else◌,
}

pub record RunKey : Type 0 where
  pub monitor_id : ℕ
  pub run_date : ℕ
  pub is_backfill : Bool

abbrev pub same_bool : Bool → Bool → Bool
same_bool true b = b
same_bool false b = not b

abbrev pub same_key : RunKey → RunKey → Bool
same_key a b =
    (a.monitor_id == b.monitor_id)
    && ((a.run_date == b.run_date) && same_bool a.is_backfill b.is_backfill)

pub record Held : Type 0 where
  pub token : ℕ
  pub expires_at : ℕ

-- The Redis keys under the lock's prefix.
abbrev pub Locks : Type 0
Locks = RunKey → Option Held

abbrev pub update_lock : Locks → RunKey → Option Held → Locks
update_lock locks key held other = if same_key other key then held else locks other

-- The exception `LockLost`.
pub data LockLost : Type 0 where
  lock_lost : RunKey → LockLost

-- Redis `GET`: a key is there until its time is over.
unfoldable pub current_token : (now : ℕ) → RunKey → Locks → Option ℕ
current_token now key locks = elim (locks key) [
  | none ↦ none
  | some held ↦ if ltb now held.expires_at then some held.token else none
]

-- Redis `SET … NX EX ttl`.
unfoldable pub acquire : (token ttl_seconds now : ℕ) → RunKey → Locks → Option ℕ × Locks
acquire token ttl_seconds now key locks = elim (current_token now key locks) [
  | some _ ↦ (none, locks)
  | none ↦ (
    some token,
    update_lock locks key (some (record { token = token; expires_at = now + ttl_seconds })),
  )
]

-- `_RELEASE_SCRIPT`: whether the key was deleted.
abbrev pub release_script : (now token : ℕ) → RunKey → Locks → Bool × Locks
release_script now token key locks = elim (current_token now key locks) [
  | none ↦ (false, locks)
  | some held ↦ if held == token then (true, update_lock locks key none) else (false, locks)
]

unfoldable pub release : (now token : ℕ) → RunKey → Locks → Result LockLost (Unit {0}) × Locks
release now token key locks =
    let (deleted, locks') = release_script now token key locks in
    (if deleted then ok tt else err (lock_lost key), locks')
