-- ===== src/Documents/Cursor.antt =====
-- The cursor's text: what is encoded is decoded.
use mlsc.Base.{
  ℕ, ◌≡◌, refl, some, false, List, [], ◌∷◌, ◌++◌, ◌==◌, ok, any, arith, Bool-cases, inl, inr,
}
use mlsc.Documents.{Codecs, bar, encode_cursor, split_bar, decode_cursor}

-- The codecs read what they write, and a timestamp has no bar.
pub record Readable (c : Codecs) : Type 0 where
  pub reads_time : (t : ℕ) → c.fromisoformat (c.isoformat t) ≡ some t
  pub reads_uuid : (id : ℕ) → c.uuid_of (c.uuid_text id) ≡ some id
  pub reads64 : (text : List ℕ) → c.decode64 (c.encode64 text) ≡ some text
  pub no_bar : (t : ℕ) → any (λ x. x == bar) (c.isoformat t) ≡ false

split_bar-append :
    (left right : List ℕ)
    → any (λ x. x == bar) left ≡ false
    → split_bar (left ++ bar ∷ right) ≡ some (left, right)
unfolding split_bar
split_bar-append [] right h = refl
split_bar-append (x ∷ left) right h = elim (Bool-cases (x == bar)) [
  | inl here ↦ absurd (ground arith)
  | inr other ↦ rw (split_bar, other, split_bar-append left right (ground arith)) refl
]

-- If the codecs read what they write and a timestamp's text has no bar, then every position is decoded
-- from its cursor.
pub decode_cursor-encode_cursor :
    (c : Codecs) (published_at document_id : ℕ)
    → Readable c
    → decode_cursor c (encode_cursor c published_at document_id) ≡ ok (published_at, document_id)
unfolding decode_cursor encode_cursor
decode_cursor-encode_cursor c published_at document_id r =
    rw
      (
        decode_cursor,
        encode_cursor,
        r.reads64,
        split_bar-append (c.isoformat published_at) (c.uuid_text document_id)
            (r.no_bar published_at),
        r.reads_time,
        r.reads_uuid,
      )
      refl
