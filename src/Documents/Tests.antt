-- ===== src/Documents/Tests.antt =====
-- Pages of two documents.
use mlsc.Base.{
  ℕ, suc, ◌+◌, ◌-◌, ◌≡◌, refl, ap, Option, none, some, Bool, List, [], ◌∷◌, arith, ok, err, filter,
  length,
}
use mlsc.Models.{Document, play}
use mlsc.Documents.{
  Codecs, Row, Filters, encode_cursor, decode_cursor, split_bar, joined, matches, list_documents,
  insert, order_by, cursor_invalid,
}
use mlsc.Documents.Cursor.{Readable, decode_cursor-encode_cursor}
use mlsc.Documents.Order.{NewestFirst}
use mlsc.Documents.Paging.{read_all}
use mlsc.Documents.Pages.{read_all_complete}

abbrev one : List ℕ → Option ℕ
one (x ∷ []) = some x
one _ = none

-- Characters beyond the bar for the times.
abbrev read_time : List ℕ → Option ℕ
read_time (x ∷ []) = some (x - 125)
read_time _ = none

abbrev codecs : Codecs
codecs = record {
  isoformat = λ t. (t + 125) ∷ [];
  fromisoformat = read_time;
  uuid_text = λ id. id ∷ [];
  uuid_of = one;
  encode64 = λ text. text;
  decode64 = some;
  midnight = λ day. day;
}

codecs-Readable : Readable codecs
codecs-Readable = record {
  reads_time = λ t. ap some (omega arith);
  reads_uuid = λ id. refl;
  reads64 = λ text. refl;
  no_bar = λ t. ground arith;
}

abbrev document : (id published_at : ℕ) → Document
document id published_at = record {
  id = id;
  monitor_id = 1;
  source_name = play;
  external_id = 70;
  entity_id = 5;
  url = none;
  author_hash = 11;
  body = none;
  published_at = published_at;
  rating = none;
  app_version = none;
  engagement = none;
  content_hash = 12;
}

abbrev filters : Filters
filters = record {
  monitor_id = 1;
  topic_id = none;
  source = some play;
  first_day = some 10;
  last_day = none;
}

abbrev documents : List Document
documents = document 7 40 ∷ document 8 41 ∷ document 9 40 ∷ document 6 9 ∷ []

first_page :
    list_documents codecs filters none 1 [] documents
    ≡ ok ((document 8 41, none) ∷ [], some (encode_cursor codecs 41 8))
unfolding list_documents insert order_by
first_page = refl

no_position : decode_cursor codecs (97 ∷ []) ≡ err cursor_invalid
unfolding decode_cursor split_bar
no_position = refl

decode_cursor-encode_cursor_example : decode_cursor codecs (encode_cursor codecs 41 8) ≡ ok (41, 8)
decode_cursor-encode_cursor_example = decode_cursor-encode_cursor codecs 41 8 codecs-Readable

read_all_complete_example :
    (rows : List Row) × (read_all (suc (length documents)) codecs filters none 1 [] documents
      ≡ some (ok rows))
    × NewestFirst rows
    × ((q : Row → Bool)
        → length (filter q rows)
          ≡ length (filter q (filter (matches codecs filters) (joined [] documents))))
read_all_complete_example =
    read_all_complete codecs filters 1 [] documents codecs-Readable
      ((refl, (refl, (refl, tt))), ((refl, (refl, tt)), ((refl, tt), (tt, tt)))) (omega arith)
