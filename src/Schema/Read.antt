-- ===== src/Schema/Read.antt =====
-- parser/src/lib.rs, `Deserialize for Type` and `for Data`: the hand-written readers. What serde
-- hands to a visitor is a parameter, and so are the errors that it makes.
use qapi_rs.Prelude.{
  ℕ, String, true, false, Option, none, some, List, [], ◌∷◌, Outcome, ok, err, map_err, map_ok,
  ◌>>=◌,
}
use qapi_rs.Schema.Types.{SchemaType, Conditional, Features, Value, Data, new_value}

-- `visit_str` and `visit_string`
abbrev pub visit_str : String → SchemaType
visit_str v = record { name = v; is_array = false; conditional = none; features = [] }

abbrev visit_string : String → SchemaType
visit_string v = record { name = v; is_array = false; conditional = none; features = [] }

-- `ConditionalType`, the map form of a type.
pub record ConditionalType : Type 0 where
  pub ty : SchemaType
  pub conditional : Option Conditional
  pub features : Features

with_condition : ConditionalType → SchemaType
with_condition c = record (c.ty) { conditional = c.conditional; features = c.features }

module _ {E : Type 0} (invalid_length : ℕ → String → E) where
  -- `seq.next_element`, over the elements to come, each read or not.
  next_element : List (Outcome E String) → Outcome E (Option String)
  next_element [] = ok none
  next_element (r ∷ rs) = map_ok some r

  array_of : String → Option String → Outcome E SchemaType
  array_of v none = ok (record { name = v; is_array = true; conditional = none; features = [] })
  array_of v (some w) = err (invalid_length 2 "single array item")

  -- `visit_seq`
  unfoldable pub visit_seq : List (Outcome E String) → Outcome E SchemaType
  unfolding next_element array_of
  visit_seq [] = err (invalid_length 0 "single array item")
  visit_seq (r ∷ rs) = do v ← r; w ← next_element rs; array_of v w

  -- `visit_map`, from what the derived reader makes of the map.
  abbrev visit_map : Outcome E ConditionalType → Outcome E SchemaType
  unfolding with_condition
  visit_map read = map_ok with_condition read

module _ {J E F : Type 0} (read_type : J → Outcome E SchemaType) (custom : E → F) where
  -- The fields of a map, in its order; the first that fails ends the reading.
  unfoldable pub read_fields : List (String × J) → Outcome F (List Value)
  read_fields [] = ok []
  read_fields ((n, t) ∷ fields) = do
    ty ← map_err custom (read_type t)
    rest ← read_fields fields
    ok (new_value n ty ∷ rest)

  -- `Deserialize for Data`
  unfoldable pub read_data : List (String × J) → Outcome F Data
  unfolding read_fields
  read_data fields = do fs ← read_fields fields; ok (record { fields = fs })
