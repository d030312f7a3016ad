-- ===== src/Ingest/Plan.antt =====
-- mlsc/sources/collect.py and mlsc/sources/base.py: what collection knows of a source's kind. An
-- adapter is a function of the cursor and the allowance left, with `items_from` applied to its result.
use mlsc.Base.{ℕ, Option, Bool, List, Result}
use mlsc.Fetch.Contracts.{FetchStatus}
use mlsc.Models.{MonitorSource}

-- An item of any kind. Texts whose content is read are lists of character codes.
pub record CollectedItem : Type 0 where
  pub external_id : ℕ
  pub author_handle : Option (List ℕ)
  pub title : Option (List ℕ)
  pub body : Option (List ℕ)
  pub published_at : ℕ
  pub url : Option ℕ
  pub rating : Option ℕ
  pub app_version : Option ℕ
  pub engagement : Option ℕ

-- A kind that does not track a field has none there.
pub record Cursor : Type 0 where
  pub last_external_id : Option ℕ
  pub last_published_at : Option ℕ

-- An adapter's `CollectionResult`.
pub record Page : Type 0 where
  pub items : List CollectedItem
  pub new_cursor : Cursor
  pub quota_reached : Bool

-- The exceptions of `_ADAPTER_FAILURES`, with their text: `MalformedFeed` has no status.
pub data AdapterFailure : Type 0 where
  malformed_feed : (text : List ℕ) → AdapterFailure
  fetch_failed : FetchStatus → (text : List ℕ) → AdapterFailure

-- What `adapter.fetch` comes to; the last is any other exception.
pub data Fetched : Type 0 where
  page : Page → Fetched
  adapter_failed : AdapterFailure → Fetched
  raised : Fetched

abbrev pub Adapter : Type 0
Adapter = Cursor → (remaining : ℕ) → Fetched

pub record SourcePlan : Type 0 where
  pub adapters : List Adapter
  pub cursor : Cursor
  pub library_version : ℕ

-- `SourceCollectionFailed`
pub record ConfigFailure : Type 0 where
  pub text : List ℕ
  pub validation_failed : Bool

abbrev pub PlanFor : Type 0
PlanFor = MonitorSource → Result ConfigFailure SourcePlan
