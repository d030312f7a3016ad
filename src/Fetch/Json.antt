-- ===== src/Fetch/Json.antt =====
-- The values that `json.loads` builds. A number is kept as its literal, since no code of this
-- component reads it.
use Prim.Native.String.{String}
use mlsc.Base.{
  suc, ◌-◌, Option, none, some, Bool, List, [], ◌∷◌, ltb, length, get_elem?, if◌then◌else◌,
}
use mlsc.Base.Int.{ℤ, pos, negsuc}
use text.Mathlib.Text.{◌==◌ as str_eq}

mutual
  pub data Json : Type 0 where
    null : Json
    boolean : Bool → Json
    number : String → Json
    str : String → Json
    array : Items → Json
    object : Fields → Json

  pub data Items : Type 0 where
    nil : Items
    cons : Json → Items → Items

  pub data Fields : Type 0 where
    end : Fields
    field : String → Json → Fields → Fields

abbrev pub elements : Items → List Json
elements nil = []
elements (cons j items) = j ∷ elements items

-- `d.get(k)`
abbrev pub lookup : String → Fields → Option Json
lookup k end = none
lookup k (field k' j fields) = if str_eq k' k then some j else lookup k fields

-- `l[i]`, with Python's negative positions; nothing where it raises `IndexError`.
abbrev pub at : List Json → ℤ → Option Json
at items (pos i) = get_elem? items i
at items (negsuc i) = if ltb i (length items) then get_elem? items (length items - suc i) else none
