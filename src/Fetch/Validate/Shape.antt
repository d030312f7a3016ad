-- ===== src/Fetch/Validate/Shape.antt =====
-- What a validated response is known to be.
use Prim.Native.String.{String}
use mlsc.Base.{
  ℕ, ◌≡◌, refl, true, List, map, any, All, length, arith, Result, ok, err, ◌>>=◌, ◌>>◌, subst,
  >>=-eq-ok,
}
use mlsc.Fetch.Json.{Json}
use mlsc.Fetch.Contracts.{
  Payload, rows, body_text, BodyFormat, json, google_batchexecute, raw, FetchExpectations,
}
use mlsc.Fetch.Validate.{
  Decoders, normalise, same_text, media_type, decode_body, walk_path, Raised, payload_of,
  check_fields_of, check_content_type, check_row_count_floor, count_target, validate_items,
  validate,
}
use mlsc.Fetch.Validate.Required.{HasFields, check_required_fields-ok}

-- The response is as the adapter declared.
pub record IsHealthy (d : Decoders) (content_type body : List ℕ) (expectations : FetchExpectations)
    (items : List Json) : Type 0 where
  pub typed :
      any (same_text (media_type content_type)) (map normalise expectations.content_type) ≡ true
  pub document : Json
  pub decoded : decode_body d expectations.body_format body ≡ ok document
  pub at_path : walk_path document expectations.item_path ≡ ok items
  pub counted : List Json
  pub at_count_path : count_target document items expectations.count_path ≡ ok counted
  pub floor : length counted ≡ 0 → expectations.min_rows_when_healthy ≡ 0
  pub fields : expectations.body_format ≡ json → All (HasFields expectations.required_fields) items

rows_of_payload :
    (r : Result Raised (List Json)) (items : List Json)
    → (r >>= λ found. ok (rows found)) ≡ ok (rows items)
    → r ≡ ok items
rows_of_payload (ok found) items h = cc
rows_of_payload (err e) items h = cc

payload_of-rows :
    (d : Decoders) (body : List ℕ) (e : FetchExpectations) (format : BodyFormat) (items : List Json)
    → payload_of d body e format ≡ ok (rows items)
    → validate_items d body e ≡ ok items
payload_of-rows d body e json items h = rows_of_payload (validate_items d body e) items h
payload_of-rows d body e google_batchexecute items h =
    rows_of_payload (validate_items d body e) items h
payload_of-rows d body e raw items h = cc

items_are_no_text :
    (r : Result Raised (List Json)) (text : String)
    → (r >>= λ found. ok (rows found)) ≡ ok (body_text text)
    → ⊥
items_are_no_text (ok found) text h = absurd cc
items_are_no_text (err e) text h = absurd cc

check_content_type-ok :
    (content_type : List ℕ) (e : FetchExpectations)
    → check_content_type content_type e ≡ ok tt
    → any (same_text (media_type content_type)) (map normalise e.content_type) ≡ true
unfolding check_content_type
check_content_type-ok content_type e h = ground arith

check_row_count_floor-ok :
    (counted : List Json) (e : FetchExpectations)
    → check_row_count_floor counted e ≡ ok tt
    → length counted ≡ 0
    → e.min_rows_when_healthy ≡ 0
unfolding check_row_count_floor
check_row_count_floor-ok counted e h none_counted = ground arith

check_fields_of-ok :
    (format : BodyFormat) (items : List Json) (e : FetchExpectations)
    → check_fields_of format items e ≡ ok tt
    → format ≡ json
    → All (HasFields e.required_fields) items
check_fields_of-ok json items e h is_json =
    check_required_fields-ok e.required_fields items e refl h
check_fields_of-ok google_batchexecute items e h is_json = absurd (cc)
check_fields_of-ok raw items e h is_json = absurd (cc)

both_ok :
    (a b : Result Raised (Unit {0})) (found items : List Json)
    → (a >> (b >> ok found)) ≡ ok items
    → (a ≡ ok tt) × (b ≡ ok tt) × (found ≡ items)
both_ok (ok _) (ok _) found items h = (refl, refl, cc)
both_ok (ok _) (err e) found items h = absurd (cc)
both_ok (err e) b found items h = absurd (cc)

module _ (d : Decoders) (content_type body : List ℕ) (e : FetchExpectations) (items : List Json)
    (typed : check_content_type content_type e ≡ ok tt) (document : Json)
    (decoded : decode_body d e.body_format body ≡ ok document) where
  IsHealthy-of_counted :
      (found counted : List Json)
      → walk_path document e.item_path ≡ ok found
      → count_target document found e.count_path ≡ ok counted
      → (check_fields_of e.body_format found e >> (check_row_count_floor counted e >> ok found))
        ≡ ok items
      → IsHealthy d content_type body e items
  IsHealthy-of_counted found counted at_path at_count_path h =
      let (fields, floor, same) =
        both_ok (check_fields_of e.body_format found e) (check_row_count_floor counted e) found
          items h in
      subst (IsHealthy d content_type body e) same (record {
        typed = check_content_type-ok content_type e typed;
        document = document;
        decoded = decoded;
        at_path = at_path;
        counted = counted;
        at_count_path = at_count_path;
        floor = check_row_count_floor-ok counted e floor;
        fields = check_fields_of-ok e.body_format found e fields;
      })

  -- The rest of validation, after the body is decoded.
  abbrev rest_of : Result Raised (List Json)
  rest_of = do
    found ← walk_path document e.item_path
    counted ← count_target document found e.count_path
    check_fields_of e.body_format found e
    check_row_count_floor counted e
    ok found

  IsHealthy-of_document : rest_of ≡ ok items → IsHealthy d content_type body e items
  IsHealthy-of_document h =
      let (found, at_path, h2) = >>=-eq-ok (walk_path document e.item_path) _ h in
      let (counted, at_count_path, h3) =
        >>=-eq-ok (count_target document found e.count_path) _ h2 in
      IsHealthy-of_counted found counted at_path at_count_path h3

-- What a payload says of the response: items are of a healthy response, and a text is the decoded body
-- of a response with an accepted media type, for an adapter that declares a raw body.
abbrev pub IsDeclared :
    Decoders → (content_type body : List ℕ) → FetchExpectations → Payload → Type 0
IsDeclared d content_type body e (rows items) = IsHealthy d content_type body e items
IsDeclared d content_type body e (body_text text) =
    (any (same_text (media_type content_type)) (map normalise e.content_type) ≡ true)
    × (e.body_format ≡ raw)
    × (text ≡ d.decode body)

payload_of-text :
    (d : Decoders) (body : List ℕ) (e : FetchExpectations) (format : BodyFormat) (text : String)
    → payload_of d body e format ≡ ok (body_text text)
    → (format ≡ raw) × (text ≡ d.decode body)
payload_of-text d body e raw text h = (refl, cc)
payload_of-text d body e json text h = absurd (items_are_no_text (validate_items d body e) text h)
payload_of-text d body e google_batchexecute text h =
    absurd (items_are_no_text (validate_items d body e) text h)

-- A response that passes is as its adapter declared, and its media type is an accepted one. Items stand
-- at the declared path of the decoded body, the counted list is not empty where rows are expected, and
-- in a JSON body every item has every required field; a text is the decoded body of an adapter that
-- declares it raw.
pub validate-IsDeclared :
    (d : Decoders) (content_type body : List ℕ) (e : FetchExpectations) (payload : Payload)
    → validate d content_type body e ≡ ok payload
    → IsDeclared d content_type body e payload
unfolding validate validate_items
validate-IsDeclared d content_type body e (rows items) h =
    let (_, typed, passed) =
      >>=-eq-ok (check_content_type content_type e) (λ _. payload_of d body e e.body_format) h in
    let (document, decoded, rest) =
      >>=-eq-ok (decode_body d e.body_format body) _
        (payload_of-rows d body e e.body_format items passed) in
    IsHealthy-of_document d content_type body e items typed document decoded rest
validate-IsDeclared d content_type body e (body_text text) h =
    let (_, typed, passed) =
      >>=-eq-ok (check_content_type content_type e) (λ _. payload_of d body e e.body_format) h in
    let (is_raw, same) = payload_of-text d body e e.body_format text passed in
    (check_content_type-ok content_type e typed, is_raw, same)
