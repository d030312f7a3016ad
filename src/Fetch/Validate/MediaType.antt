-- ===== src/Fetch/Validate/MediaType.antt =====
-- How `_check_content_type` of mlsc/core/fetch/validate.py reads a content type: Python's string
-- methods on ASCII codes.
use mlsc.Base.{ℕ, ◌+◌, Bool, ◌&&◌, ◌||◌, List, [], ◌∷◌, map, leb, ◌==◌, if◌then◌else◌, true, false}

-- `str.isspace` and `str.lower` on ASCII.
is_space : ℕ → Bool
is_space c = c == 32 || leb 9 c && leb c 13 || leb 28 c && leb c 31

lower : ℕ → ℕ
lower c = if leb 65 c && leb c 90 then c + 32 else c

unfoldable pub lstrip : List ℕ → List ℕ
unfolding is_space
lstrip [] = []
lstrip (c ∷ s) = let rest = lstrip s in if is_space c then rest else c ∷ s

rstrip : List ℕ → List ℕ
unfolding is_space
rstrip [] = []
rstrip (c ∷ s) = elim (rstrip s) [ [] ↦ if is_space c then [] else c ∷ [] | d ∷ r ↦ c ∷ d ∷ r ]

unfoldable pub normalise : List ℕ → List ℕ
unfolding lstrip rstrip lower
normalise s = map lower (rstrip (lstrip s))

-- `s.split(";", 1)[0]`
before_semicolon : List ℕ → List ℕ
before_semicolon [] = []
before_semicolon (c ∷ s) = let rest = before_semicolon s in if c == b';' then [] else c ∷ rest

abbrev pub same_text : List ℕ → List ℕ → Bool
same_text [] [] = true
same_text (c ∷ s) (d ∷ t) = c == d && same_text s t
same_text _ _ = false

unfoldable pub media_type : List ℕ → List ℕ
unfolding normalise before_semicolon
media_type content_type = normalise (before_semicolon content_type)
