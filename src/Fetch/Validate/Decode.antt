-- ===== src/Fetch/Validate/Decode.antt =====
-- mlsc/core/fetch/validate.py, `_decode_body` and what it calls.
use Prim.Native.String.{String}
use mlsc.Base.{
  leb, ◌&&◌, ◌||◌, Bool, ℕ, Option, none, some, List, [], ◌∷◌, ◌==◌, if◌then◌else◌, Result, ok, err,
  ◌>>=◌,
}
use mlsc.Fetch.Json.{Json, array, str, cons}
use mlsc.Fetch.Contracts.{
  BodyFormat, google_batchexecute, Missing, unparseable_body, unparseable_envelope, ValidationError,
  missing_required_fields,
}

-- What `json.loads` does with a body: it returns a value, raises `JSONDecodeError`, or, on bytes
-- that are not in a Unicode encoding, raises `UnicodeDecodeError`.
pub data Loaded : Type 0 where
  loaded : Json → Loaded
  not_json : Loaded
  undecodable : Loaded

pub record Decoders : Type 0 where
  pub loads : List ℕ → Loaded
  pub loads_str : String → Loaded
  -- `body.decode("utf-8", errors="replace")`
  pub decode : List ℕ → String

-- What validation raises: a named failure, or the decoding error that no handler catches.
pub data Raised : Type 0 where
  guardrail : ValidationError → Raised
  unicode_error : Raised

abbrev pub missing : {A : Type 0} → List Missing → Result Raised A
missing names = err (guardrail (missing_required_fields names))

abbrev pub decoded : Loaded → Result Raised Json
decoded (loaded j) = ok j
decoded not_json = missing (unparseable_body ∷ [])
decoded undecodable = err unicode_error

-- `b")]}'"`
abbrev xssi_prefix : List ℕ
xssi_prefix = b')' ∷ b']' ∷ b'}' ∷ 39 ∷ []

abbrev strip_prefix : List ℕ → List ℕ → Option (List ℕ)
strip_prefix [] s = some s
strip_prefix (p ∷ ps) [] = none
strip_prefix (p ∷ ps) (c ∷ s) = let rest = strip_prefix ps s in if p == c then rest else none

-- The third element of the first row of the envelope, if it is a string.
abbrev inner_text : Json → Option String
inner_text (array (cons (array (cons _ (cons _ (cons (str s) _)))) _)) = some s
inner_text _ = none

-- `bytes.lstrip`, which unlike `str.lstrip` keeps the separators 28 to 31.
abbrev is_byte_space : ℕ → Bool
is_byte_space c = c == 32 || leb 9 c && leb c 13

lstrip_bytes : List ℕ → List ℕ
lstrip_bytes [] = []
lstrip_bytes (c ∷ s) = let rest = lstrip_bytes s in if is_byte_space c then rest else c ∷ s

module _ (d : Decoders) where
  unwrap : Json → Result Raised Json
  unwrap outer = elim (inner_text outer) [
    | none ↦ missing (unparseable_envelope ∷ [])
    | some s ↦ decoded (d.loads_str s)
  ]

  decode_google_batchexecute : List ℕ → Result Raised Json
  unfolding unwrap lstrip_bytes
  decode_google_batchexecute body =
      let stripped = lstrip_bytes body in
      let text : List ℕ = elim (strip_prefix xssi_prefix stripped) [
        | none ↦ stripped
        | some rest ↦ rest
      ] in
      decoded (d.loads text) >>= unwrap

  unfoldable pub decode_body : BodyFormat → List ℕ → Result Raised Json
  unfolding decode_google_batchexecute
  decode_body google_batchexecute body = decode_google_batchexecute body
  decode_body _ body = decoded (d.loads body)
