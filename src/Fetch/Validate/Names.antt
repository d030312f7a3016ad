-- ===== src/Fetch/Validate/Names.antt =====
-- Field names of items, and sorted sets of them.
use Prim.Native.Nat.{Ordering}
use Prim.Native.String.{String, compare}
use text.Mathlib.Text.{◌==◌ as str_eq}
use text.Mathlib.TextEquality.{path_by_compare}
use mlsc.Base.{Bool, false, ◌||◌, ◌≡◌, List, [], ◌∷◌, any, is_some, arith, refl}
use mlsc.Fetch.Json.{Json, object, lookup}

-- `isinstance(item, dict) and f in item`
abbrev pub has_key : Json → String → Bool
has_key (object fields) f = is_some (lookup f fields)
has_key _ f = false

-- Adding to a set that is kept as a list in increasing order.
pub insert_name : String → List String → List String
insert_name f [] = f ∷ []
insert_name f (g ∷ names) = elim (compare f g) [
  | Ordering.lt ↦ f ∷ g ∷ names
  | Ordering.eq ↦ g ∷ names
  | Ordering.gt ↦ g ∷ insert_name f names
]

abbrev pub is_among : List String → String → Bool
is_among names f = any (λ g. str_eq g f) names

pub insert_name-is_among :
    (f h : String) (names : List String)
    → is_among (insert_name f names) h ≡ (str_eq f h || is_among names h)
unfolding insert_name
insert_name-is_among f h [] = refl
insert_name-is_among f h (g ∷ names) =
    ground (arith, insert_name-is_among f h names, path_by_compare f g)
