-- ===== src/Codegen/Map.antt =====
-- `BTreeMap` of the standard library, as codegen/src/lib.rs uses it: entries in the order of their
-- keys, which is that of the keys' code points.
pub mod Lookup
use Prim.Native.Char.{code}
use qapi_rs.Prelude.{
  String, Bool, true, false, ◌&&◌, ◌||◌, Option, none, some, List, [], ◌∷◌, ltb, ◌==◌,
  if◌then◌else◌,
}
use qapi_rs.Prelude.Text.{str_eq}

-- `Ord for str`
abbrev pub str_ltb : String → String → Bool
str_ltb s String.[] = false
str_ltb String.[] (String.◌∷◌ d t) = true
str_ltb (String.◌∷◌ c s) (String.◌∷◌ d t) =
    ltb (code c) (code d) || (code c == code d) && str_ltb s t

abbrev pub BTreeMap : Type 0 → Type 0
BTreeMap V = List (String × V)

module _ {V : Type 0} where
  unfoldable pub get : String → BTreeMap V → Option V
  get k [] = none
  get k ((j, v) ∷ m) = if str_eq j k then some v else get k m

  -- `insert`, which replaces.
  unfoldable pub insert : String → V → BTreeMap V → BTreeMap V
  insert k v [] = (k, v) ∷ []
  insert k v ((j, w) ∷ m) =
      if str_eq j k
      then (j, v) ∷ m
      else if str_ltb k j
      then (k, v) ∷ (j, w) ∷ m
      else (j, w) ∷ insert k v m

  -- What `get_mut` lets the code do to the value of a key that is there.
  unfoldable pub update : String → (V → V) → BTreeMap V → BTreeMap V
  update k f [] = []
  update k f ((j, v) ∷ m) = if str_eq j k then (j, f v) ∷ m else (j, v) ∷ update k f m

  abbrev pub values : BTreeMap V → List V
  values [] = []
  values ((j, v) ∷ m) = v ∷ values m
