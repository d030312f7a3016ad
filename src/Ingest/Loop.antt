-- ===== src/Ingest/Loop.antt =====
-- The loop of `collect_source` over a plan's adapters: mlsc/tasks/ingest.py.
pub mod Steps
use mlsc.Base.{
  ℕ, ◌-◌, Option, none, some, Bool, true, false, ◌||◌, List, [], ◌∷◌, ◌++◌, ◌==◌, if◌then◌else◌,
  ltb, length,
}
use mlsc.Fetch.Contracts.{validation_failed}
use mlsc.Ingest.Plan.{
  CollectedItem, Cursor, Page, AdapterFailure, malformed_feed, fetch_failed, page, adapter_failed,
  raised, Adapter,
}

abbrev pub is_validation_failure : AdapterFailure → Bool
is_validation_failure (malformed_feed _) = true
is_validation_failure (fetch_failed validation_failed _) = true
is_validation_failure (fetch_failed _ _) = false

abbrev pub failure_text : AdapterFailure → List ℕ
failure_text (malformed_feed text) = text
failure_text (fetch_failed _ text) = text

unfoldable pub newer_cursor : Option Cursor → Cursor → Option Cursor
newer_cursor none candidate = some candidate
newer_cursor (some current) candidate = elim current.last_published_at [
  | none ↦ some candidate
  | some current_at ↦ elim candidate.last_published_at [
    | none ↦ some current
    | some candidate_at ↦ if ltb current_at candidate_at then some candidate else some current
  ]
]

-- The variables of the fan-out's loop. An adapter is only asked while the remaining allowance is
-- positive, so the allowance may stop at zero.
pub record FanOut : Type 0 where
  pub items : List CollectedItem
  pub new_cursor : Option Cursor
  pub remaining : ℕ
  pub allowance_reached : Bool
  pub validation_failed : Bool
  pub error : Option (List ℕ)

abbrev pub fan_out_start : (quota : ℕ) → FanOut
fan_out_start quota = record {
  items = [];
  new_cursor = none;
  remaining = quota;
  allowance_reached = false;
  validation_failed = false;
  error = none;
}

abbrev pub with_page : Page → FanOut → FanOut
with_page p f = record f {
  items = f.items ++ p.items;
  new_cursor = newer_cursor f.new_cursor p.new_cursor;
  remaining = f.remaining - length p.items;
  allowance_reached = f.allowance_reached || p.quota_reached;
}

-- The loop over the plan's adapters. Nothing is returned where an adapter raises what is not caught.
unfoldable pub fan_out : Cursor → List Adapter → FanOut → Option FanOut
fan_out cursor [] f = some f
fan_out cursor (adapter ∷ rest) f =
    if f.remaining == 0
    then some (record f { allowance_reached = true })
    else elim (adapter cursor f.remaining) [
      | page p ↦ fan_out cursor rest (with_page p f)
      | adapter_failed failure ↦ some (record f {
        error = some (failure_text failure);
        validation_failed = is_validation_failure failure;
      })
      | raised ↦ none
    ]
