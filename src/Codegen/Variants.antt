-- ===== src/Codegen/Variants.antt =====
-- What `Context::process_unions` of codegen/src/lib.rs makes of a union before it writes it: where
-- the fields of its base are, and its variants.
pub mod Complete
use qapi_rs.Prelude.{
  String, Bool, true, false, Option, none, some, List, [], ◌∷◌, ◌++◌, any, length, ltb, leb,
  if◌then◌else◌,
}
use qapi_rs.Prelude.Text.{str_eq, concat}
use qapi_rs.Schema.Types.{SchemaType, Value, DataOrType, fields_of, type_of, SpecName, spec_name}
use qapi_rs.Codegen.Map.{get, insert}
use qapi_rs.Codegen.Context.{Gen, ◌>>=◌, ◌>>◌, return, or_not_found, gets, modify, each}
use qapi_rs.Codegen.Commands.{value_of}
use qapi_rs.Codegen.Structs.{not_found}

-- `create_base`, `base` and `fields`.
pub record Base : Type 0 where
  pub create_base : Bool
  pub base : Option Value
  pub fields : List Value

-- The first field of that name, and the first of another.
abbrev pub find_field : String → List Value → Option Value
find_field name [] = none
find_field name (f ∷ fs) = if str_eq f.name name then some f else find_field name fs

abbrev find_other : String → List Value → Option Value
find_other name [] = none
find_other name (f ∷ fs) = if str_eq f.name name then find_other name fs else some f

abbrev plain_type : String → SchemaType
plain_type name = record { name = name; is_array = false; conditional = none; features = [] }

abbrev base_of_fields : String → String → List Value → Base
base_of_fields discrim type_id fields =
    if ltb 2 (length fields)
    then record {
      create_base = true;
      base = some (value_of "base" (plain_type (concat (type_id ∷ "Base" ∷ []))));
      fields = fields;
    }
    else record { create_base = false; base = find_other discrim fields; fields = fields }

abbrev base_of_struct : SchemaType → List Value → Base
base_of_struct ty fields = record {
  create_base = false;
  base = if leb (length fields) 1 then none else some (value_of "base" ty);
  fields = fields;
}

-- The discriminators of structs, noted for `process_structs`.
unfoldable pub note_discriminator : {W : Type 0} → String → String → Value → Gen W (Unit {0})
note_discriminator discrim id f =
    if str_eq f.name discrim
    then modify (λ c. record c { struct_discriminators = insert id f.name c.struct_discriminators })
    else return tt

unfoldable pub choose_base : {W : Type 0} → String → String → DataOrType → Gen W Base
choose_base discrim type_id (fields_of d) = return (base_of_fields discrim type_id d.fields)
choose_base discrim type_id (type_of ty) = do
  types ← gets (λ c. c.types)
  found ← or_not_found (not_found ty.name) (get ty.name types)
  each (note_discriminator discrim found.id) found.body.fields
  return (base_of_struct ty found.body.fields)

-- `variants`: each variant is a value of the discriminator's enum, with its field if the union
-- has one for it.
unfoldable pub find_name : String → List SpecName → Option SpecName
find_name name [] = none
find_name name (v ∷ vs) = if str_eq name (spec_name v) then some v else find_name name vs

abbrev with_variant :
    SpecName × Option Value
    → Option (List (SpecName × Option Value))
    → Option (List (SpecName × Option Value))
with_variant v none = none
with_variant v (some vs) = some (v ∷ vs)

abbrev pub known_variant :
    Value
    → Option SpecName
    → Option (List (SpecName × Option Value))
    → Option (List (SpecName × Option Value))
known_variant f none rest = none
known_variant f (some v) rest = with_variant (v, some f) rest

-- The variants of the union's fields; `none` is the panic of `expect`.
unfoldable pub field_variants : List SpecName → List Value → Option (List (SpecName × Option Value))
field_variants names [] = some []
field_variants names (f ∷ fs) = known_variant f (find_name f.name names) (field_variants names fs)

abbrev pub is_named : String → SpecName × Option Value → Bool
is_named name (v, f) = str_eq (spec_name v) name

-- The values of the enum that the union has no field for.
unfoldable pub other_variants :
    List (SpecName × Option Value) → List SpecName → List (SpecName × Option Value)
other_variants known [] = []
other_variants known (v ∷ vs) =
    let rest = other_variants known vs in
    if any (is_named (spec_name v)) known then rest else (v, none) ∷ rest

abbrev pub with_others :
    List SpecName
    → Option (List (SpecName × Option Value))
    → Option (List (SpecName × Option Value))
with_others names none = none
with_others names (some known) = some (known ++ other_variants known names)

unfoldable pub variants_of : List SpecName → List Value → Option (List (SpecName × Option Value))
variants_of names fields = with_others names (field_variants names fields)

-- `dups`: the types of more than one field, whose conversions would overlap.
abbrev pub dups : List String → List Value → List String
dups seen [] = []
dups seen (f ∷ fs) =
    let again = dups seen fs in
    let first = dups (f.ty.name ∷ seen) fs in
    if any (str_eq f.ty.name) seen then f.ty.name ∷ again else first
