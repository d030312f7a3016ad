-- ===== src/Fetch/Validate.antt =====
-- mlsc/core/fetch/validate.py. The JSON parser and the lossy text decoding are parameters: nothing
-- is assumed of what they return.
mod MediaType
mod Decode
pub mod Names
pub mod Required
pub mod Shape
mod Tests
use Prim.Native.String.{String}
use mlsc.Base.{
  ℕ, ◌+◌, ◌≤◌, Option, none, some, Bool, true, false, ◌&&◌, ◌||◌, not, List, [], ◌∷◌, map, ltb, leb,
  ◌==◌, if◌then◌else◌, length, any, filter, Result, ok, err, ◌>>=◌, ◌>>◌,
}
use mlsc.Fetch.Json.{Json, array, object, str, Items, nil, cons, elements, lookup, at}
use mlsc.Fetch.Contracts.{
  Payload, rows, body_text, Key, index, name, BodyFormat, json, google_batchexecute, raw,
  FetchExpectations, Missing, unparseable_body, unparseable_envelope, root, key, ValidationError,
  unexpected_content_type, missing_required_fields, illegitimately_empty,
}
pub use MediaType.{same_text}
unfoldable pub use MediaType.{normalise, media_type}
pub use Decode.{
  Loaded, loaded, not_json, undecodable, Decoders, Raised, guardrail, unicode_error, missing,
}
unfoldable pub use Decode.{decode_body}
use Names.{insert_name, has_key}

unfoldable pub check_content_type : List ℕ → FetchExpectations → Result Raised (Unit {0})
check_content_type content_type expectations =
    let actual = media_type content_type in
    let expected = map normalise expectations.content_type in
    if any (same_text actual) expected
    then ok tt
    else err (guardrail (unexpected_content_type expected actual))

-- The value under one step of a path.
abbrev pub child : Json → Key → Option Json
child (array items) (index i) = at (elements items) i
child (object fields) (name k) = lookup k fields
child _ _ = none

abbrev pub keys_or_root : List Key → List Missing
keys_or_root [] = root ∷ []
keys_or_root (k ∷ path) = map key (k ∷ path)

abbrev as_list : List Key → Json → Result Raised (List Json)
as_list path (array items) = ok (elements items)
as_list path _ = missing (keys_or_root path)

abbrev descend : Json → List Key → Result Raised Json
descend current [] = ok current
descend current (k ∷ path) = elim (child current k) [
  | none ↦ missing (key k ∷ [])
  | some next ↦ descend next path
]

unfoldable pub walk_path : Json → List Key → Result Raised (List Json)
walk_path body path = descend body path >>= as_list path

-- The sorted set of the required fields that some item lacks.
unfoldable pub missing_from : List String → Json → List String → List String
missing_from [] item acc = acc
missing_from (f ∷ fields) item acc =
    missing_from fields item (if has_key item f then acc else insert_name f acc)

unfoldable pub missing_fields : List String → List Json → List String → List String
unfolding missing_from
missing_fields fields [] acc = acc
missing_fields fields (item ∷ items) acc =
    missing_fields fields items (missing_from fields item acc)

abbrev pub as_keys : List String → List Missing
as_keys = map (λ f. key (name f))

abbrev pub report_missing : List String → Result Raised (Unit {0})
report_missing [] = ok tt
report_missing (f ∷ fields) = missing (as_keys (f ∷ fields))

unfoldable pub check_required_fields : List Json → FetchExpectations → Result Raised (Unit {0})
unfolding missing_fields
check_required_fields items expectations = elim expectations.required_fields [
  | [] ↦ ok tt
  | f ∷ fields ↦ report_missing (missing_fields (f ∷ fields) items [])
]

unfoldable pub check_row_count_floor : List Json → FetchExpectations → Result Raised (Unit {0})
check_row_count_floor items expectations =
    if length items == 0 && leb 1 expectations.min_rows_when_healthy
    then err (guardrail (illegitimately_empty expectations.min_rows_when_healthy))
    else ok tt

abbrev count_target : Json → List Json → Option (List Key) → Result Raised (List Json)
count_target body items none = ok items
count_target body items (some path) = walk_path body path

abbrev pub check_fields_of : BodyFormat → List Json → FetchExpectations → Result Raised (Unit {0})
check_fields_of json items expectations = check_required_fields items expectations
check_fields_of _ items expectations = ok tt

-- After the content type, for a format that is decoded.
unfoldable pub validate_items : Decoders → List ℕ → FetchExpectations → Result Raised (List Json)
validate_items d body expectations = do
  decoded_body ← decode_body d expectations.body_format body
  items ← walk_path decoded_body expectations.item_path
  counted ← count_target decoded_body items expectations.count_path
  check_fields_of expectations.body_format items expectations
  check_row_count_floor counted expectations
  ok items

abbrev pub payload_of : Decoders → List ℕ → FetchExpectations → BodyFormat → Result Raised Payload
payload_of d body expectations raw = ok (body_text (d.decode body))
payload_of d body expectations _ = validate_items d body expectations >>= λ items. ok (rows items)

unfoldable pub validate : Decoders → List ℕ → List ℕ → FetchExpectations → Result Raised Payload
unfolding check_content_type validate_items
validate d content_type body expectations = do
  check_content_type content_type expectations
  payload_of d body expectations expectations.body_format
