-- ===== src/Fetch/Validate/Required.antt =====
-- The required fields of the items, and which of them are reported as missing.
use Prim.Native.String.{String}
use text.Mathlib.TextEquality.{eq_iff}
use text.Mathlib.TextPositions.{eq_refl}
use mlsc.Base.{
  ◌≡◌, refl, sym, ◌∙◌, true, false, not, ◌&&◌, ◌||◌, List, [], ◌∷◌, any, All, arith, ok,
}
use mlsc.Fetch.Json.{Json}
use mlsc.Fetch.Contracts.{FetchExpectations}
use mlsc.Fetch.Validate.{missing_fields, missing_from, report_missing, check_required_fields}
use mlsc.Fetch.Validate.Names.{has_key, insert_name, is_among, insert_name-is_among}

missing_from-is_among :
    (fields : List String) (item : Json) (acc : List String) (f : String)
    → is_among (missing_from fields item acc) f
      ≡ (is_among acc f || is_among fields f && not (has_key item f))
unfolding missing_from
missing_from-is_among [] item acc f = ground arith
missing_from-is_among (g ∷ fields) item acc f = ground (
  arith,
  missing_from-is_among fields item acc f,
  missing_from-is_among fields item (insert_name g acc) f,
  insert_name-is_among g f acc,
  eq_iff g f,
)

missing_fields_from :
    (fields : List String) (items : List Json) (acc : List String) (f : String)
    → is_among (missing_fields fields items acc) f
      ≡ (is_among acc f || is_among fields f && any (λ item. not (has_key item f)) items)
unfolding missing_fields
missing_fields_from fields [] acc f = ground arith
missing_fields_from fields (item ∷ items) acc f = ground (
  arith,
  missing_fields_from fields items (missing_from fields item acc) f,
  missing_from-is_among fields item acc f,
)

-- The fields that are reported are exactly the required ones that some item lacks.
pub missing_fields-is_among :
    (fields : List String) (items : List Json) (f : String)
    → is_among (missing_fields fields items []) f
      ≡ (is_among fields f && any (λ item. not (has_key item f)) items)
missing_fields-is_among fields items f = missing_fields_from fields items [] f

abbrev pub HasFields : List String → Json → Type 0
HasFields fields item = All (λ f. has_key item f ≡ true) fields

HasFields-of_none_missing :
    (fields : List String) (item : Json)
    → ((f : String) → (is_among fields f && not (has_key item f)) ≡ false)
    → HasFields fields item
HasFields-of_none_missing [] item h = tt
HasFields-of_none_missing (g ∷ fields) item h = (
  ground (arith, h g, eq_refl g),
  HasFields-of_none_missing fields item (λ f. ground (arith, h f)),
)

All-HasFields :
    (fields : List String) (items : List Json)
    → ((f : String) → (is_among fields f && any (λ item. not (has_key item f)) items) ≡ false)
    → All (HasFields fields) items
All-HasFields fields [] h = tt
All-HasFields fields (item ∷ items) h = (
  HasFields-of_none_missing fields item (λ f. ground (arith, h f)),
  All-HasFields fields items (λ f. ground (arith, h f)),
)

none_required : (items : List Json) → All (HasFields []) items
none_required [] = tt
none_required (item ∷ items) = (tt, none_required items)

report_missing-ok : (names : List String) → report_missing names ≡ ok tt → names ≡ []
report_missing-ok [] h = refl
report_missing-ok (f ∷ names) h = cc

pub check_required_fields-ok :
    (fields : List String) (items : List Json) (e : FetchExpectations)
    → e.required_fields ≡ fields
    → check_required_fields items e ≡ ok tt
    → All (HasFields fields) items
unfolding check_required_fields
check_required_fields-ok [] items e same h = none_required items
check_required_fields-ok (f ∷ fields) items e same h =
    let empty = report_missing-ok (missing_fields (f ∷ fields) items []) (rw same at h) in
    All-HasFields (f ∷ fields) items
      (λ g. sym (missing_fields-is_among (f ∷ fields) items g) ∙ rw empty)
