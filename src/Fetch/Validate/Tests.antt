-- ===== src/Fetch/Validate/Tests.antt =====
-- A response with two items.
use mlsc.Base.{◌≡◌, refl, ℕ, none, List, [], ◌∷◌, ok}
use mlsc.Fetch.Json.{Json, null, number, array, object, nil, cons, end, field}
use mlsc.Fetch.Contracts.{name, json, FetchExpectations, rows}
use mlsc.Fetch.Validate.{
  Decoders, loaded, not_json, validate, media_type, decode_body, walk_path, check_required_fields,
  check_row_count_floor,
}
use mlsc.Fetch.Validate.Shape.{IsDeclared, validate-IsDeclared}

abbrev first_item : Json
first_item = object (field "id" (number "1") (field "text" null end))

abbrev second_item : Json
second_item = object (field "id" (number "2") end)

abbrev document : Json
document = object (field "items" (array (cons first_item (cons second_item nil))) end)

abbrev decoders : Decoders
decoders = record { loads = λ _. loaded document; loads_str = λ _. not_json; decode = λ _. "" }

-- "t/x"
abbrev media : List ℕ
media = 116 ∷ 47 ∷ 120 ∷ []

abbrev expectations : FetchExpectations
expectations = record {
  content_type = media ∷ [];
  item_path = name "items" ∷ [];
  required_fields = "id" ∷ [];
  min_rows_when_healthy = 1;
  body_format = json;
  count_path = none;
}

validated_rows : validate decoders media [] expectations ≡ ok (rows (first_item ∷ second_item ∷ []))
unfolding validate media_type decode_body walk_path check_required_fields check_row_count_floor
validated_rows = refl

validate-IsDeclared_example :
    IsDeclared decoders media [] expectations (rows (first_item ∷ second_item ∷ []))
validate-IsDeclared_example =
    validate-IsDeclared decoders media [] expectations (rows (first_item ∷ second_item ∷ []))
      validated_rows
