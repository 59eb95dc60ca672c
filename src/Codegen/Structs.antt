-- ===== src/Codegen/Structs.antt =====
-- `Context::process_structs` of codegen/src/lib.rs: the fields that unions tell their variants by
-- are taken off the structs, and all structs are written.
pub mod Discriminators
use qapi_rs.Prelude.{String, Bool, true, Option, none, some, List, [], ◌∷◌, if◌then◌else◌}
use qapi_rs.Prelude.Text.{str_eq, concat}
use qapi_rs.Schema.Types.{
  Value, DataOrType, fields_of, type_of, Struct, new_value, data_is_empty, data_newtype, newtype,
  wrapper_type, struct_is_empty,
}
use qapi_rs.Codegen.{typename, feature_attrs}
use qapi_rs.Codegen.Map.{get, update, values}
use qapi_rs.Codegen.Context.{
  Gen, ◌>>=◌, ◌>>◌, return, or_not_found, ident, gets, modify, each, Output, emit,
}
use qapi_rs.Codegen.Commands.{value_of, write_field}

-- The fields of another name.
unfoldable pub without : String → List Value → List Value
without discrim [] = []
without discrim (f ∷ fs) =
    let rest = without discrim fs in if str_eq f.name discrim then rest else f ∷ rest

unfoldable pub without_field : String → Struct → Struct
without_field discrim v = record v { body = record { fields = without discrim v.body.fields } }

-- The error of a type that the schema names and that is not there.
abbrev pub not_found : String → String
not_found id = concat ("could not find qapi type " ∷ id ∷ [])

-- The first loop: a discriminator is no field of the struct that it stands in.
unfoldable pub drop_discriminator : {W : Type 0} → String × String → Gen W (Unit {0})
drop_discriminator (id, discrim) = do
  types ← gets (λ c. c.types)
  found ← or_not_found (not_found id) (get id types)
  modify (λ c. record c { types = update id (without_field discrim) c.types })

abbrev or_else : Option Value → Option Value → Option Value
or_else (some f) g = some f
or_else none g = g

-- The field that a struct has of its base alone.
unfoldable base_type : DataOrType → Option Value
base_type (type_of ty) = some (new_value "base" ty)
base_type (fields_of d) = data_newtype d

unfoldable pub single_field : Struct → Option Value
unfolding base_type
single_field v = or_else (newtype v) (if data_is_empty v.body then base_type v.base else none)

module _ {W : Type 0} (x : Output W) where
  unfoldable pub base_fields : Struct → DataOrType → Gen W (Unit {0})
  base_fields v (fields_of d) = each (write_field x "" true v.id) d.fields
  base_fields v (type_of ty) = write_field x "#[serde(flatten)]\n" true v.id (value_of "base" ty)

  unfoldable pub default_field : Value → Gen W (Unit {0})
  default_field f = do name ← ident f.name; emit x (name ∷ ": Default::default(),\n" ∷ [])

  abbrev pub default_fields : Struct → Option Value → Gen W (Unit {0})
  default_fields v none = each default_field v.body.fields
  default_fields v (some f) = return tt

  unfoldable pub as_ref_impl : String → String → String → Bool → Gen W (Unit {0})
  as_ref_impl struct_id field_ty field_name optional =
      if optional
      then return tt
      else emit x (
          "\n    impl AsRef<" ∷ field_ty ∷ "> for " ∷ struct_id
          ∷ " {\n        fn as_ref(&self) -> &" ∷ field_ty ∷ " {\n            &self." ∷ field_name
          ∷ "\n        }\n    }" ∷ [])

  unfoldable pub from_impl : Struct → String → Option Value → Gen W (Unit {0})
  unfolding as_ref_impl default_field
  from_impl v struct_id none = return tt
  from_impl v struct_id (some f) = do
    field_name ← ident f.name
    emit x (
        "\nimpl<T: Into<"
        ∷ typename f.ty
        ∷ ">> From<T> for "
        ∷ struct_id
        ∷ " {\n    fn from(val: T) -> Self {\n        Self {\n            "
        ∷ field_name
        ∷ ": val.into()"
        ∷ (if f.optional then ".into()" else "")
        ∷ ",\n"
        ∷ [])
    default_fields v (newtype v)
    emit x ("\n        }\n    }\n}" ∷ [])
    as_ref_impl struct_id (typename f.ty) field_name f.optional

  unfoldable pub wrapper_impl : String → Option Value → Gen W (Unit {0})
  wrapper_impl struct_id none = return tt
  wrapper_impl struct_id (some f) = do
    field_name ← ident f.name
    emit x (
        "\nimpl ::std::ops::Deref for "
        ∷ struct_id
        ∷ " {\n    type Target = "
        ∷ typename f.ty
        ∷ ";\n\n    fn deref(&self) -> &Self::Target {\n        &self."
        ∷ field_name
        ∷ "\n    }\n}"
        ∷ [])
    emit x (
        "\nimpl "
        ∷ struct_id
        ∷ " {\n    pub fn into_inner(self) -> "
        ∷ typename f.ty
        ∷ " {\n        self."
        ∷ field_name
        ∷ "\n    }\n}"
        ∷ [])

  abbrev repr : Option Value → String
  repr none = ""
  repr (some f) = "#[repr(transparent)]"

  unfoldable pub write_struct : Struct → Gen W (Unit {0})
  unfolding base_fields from_impl wrapper_impl
  write_struct v = do
    struct_id ← ident v.id
    emit x (
        "\n#[derive(Debug, Clone, Serialize, Deserialize"
        ∷ (if struct_is_empty v then ", Default" else "")
        ∷ ")]"
        ∷ repr (wrapper_type v)
        ∷ feature_attrs v.features
        ∷ "\npub struct "
        ∷ struct_id
        ∷ " {\n"
        ∷ [])
    base_fields v v.base
    each (write_field x "" true v.id) v.body.fields
    emit x ("}\n" ∷ [])
    from_impl v struct_id (single_field v)
    wrapper_impl struct_id (wrapper_type v)

  -- `Context::process_structs`
  unfoldable pub process_structs : Gen W (Unit {0})
  process_structs = do
    discriminators ← gets (λ c. c.struct_discriminators)
    each drop_discriminator discriminators
    types ← gets (λ c. c.types)
    each write_struct (values types)
