-- ===== src/Codegen/Unions.antt =====
-- `Context::process_unions` of codegen/src/lib.rs: the enum of a union, the struct of its base, and
-- the conversions from its variants.
use qapi_rs.Prelude.{
  String, Bool, true, false, not, Option, none, some, List, [], ◌∷◌, any, if◌then◌else◌,
}
use qapi_rs.Prelude.Text.{str_eq, concat}
use qapi_rs.Schema.Types.{Value, SpecName, CombinedUnion, spec_name, wrapper_type}
use qapi_rs.Codegen.{typename}
use qapi_rs.Codegen.Map.{get, values}
use qapi_rs.Codegen.Context.{
  Context, Gen, ◌>>=◌, ◌>>◌, return, check, unwrap, or_not_found, ident, field, gets, each, Output,
  emit,
}
use qapi_rs.Codegen.Commands.{value_of, write_field}
use qapi_rs.Codegen.Structs.{without}
use qapi_rs.Codegen.Variants.{Base, find_field, choose_base, variants_of, dups}

abbrev discriminator_of : Option String → String
discriminator_of (some s) = s
discriminator_of none = "type"

abbrev field_of : SpecName → Option Value → Option Value
field_of name none = none
field_of name (some v) = some (value_of (spec_name name) v.ty)

-- The wrapped type of a variant's struct, if it has one; a union has none.
unfoldable wrapped_type : {W : Type 0} → CombinedUnion → Value → Context W → Option (Option Value)
wrapped_type u v c = elim (get v.ty.name c.types) [
  | some ty ↦ some (wrapper_type ty)
  | none ↦ elim (get v.ty.name c.unions) [ some e ↦ some none | none ↦ none ]
]

abbrev base_into : Bool → Bool → String
base_into false false = "val.1"
base_into false true = "val.1.into()"
base_into true false = "val.1.into()"
base_into true true = "Some(Box::new(val.1))"

module _ {W : Type 0} (x : Output W) where
  unfoldable pub checked : Option Value → Gen W (Unit {0})
  checked none = return tt
  checked (some v) = do check (not v.optional); check (not v.ty.is_array)

  unfoldable pub variant_body : String → Option Value → Option Value → Gen W (Unit {0})
  variant_body id (some base) (some f) = do
    emit x (" {\n" ∷ [])
    base_text ← field base false id
    emit x (
        "\t\t"
        ∷ (if str_eq base.name "base" then "#[serde(flatten)] " else "")
        ∷ base_text
        ∷ ",\n"
        ∷ [])
    text ← field f false id
    emit x ("\t\t#[serde(flatten)] " ∷ text ∷ ",\n" ∷ [])
    emit x ("\t},\n" ∷ [])
  variant_body id (some f) none = emit x ("(" ∷ typename f.ty ∷ "),\n" ∷ [])
  variant_body id none (some f) = emit x ("(" ∷ typename f.ty ∷ "),\n" ∷ [])
  variant_body id none none = emit x (",\n" ∷ [])

  unfoldable pub write_variant : String → Option Value → SpecName × Option Value → Gen W (Unit {0})
  unfolding checked variant_body
  write_variant id base (name, variant) = do
    checked variant
    variant_id ← ident (spec_name name)
    emit x ("\t#[serde(rename = \"" ∷ spec_name name ∷ "\")]\n\t" ∷ variant_id ∷ [])
    variant_body id base (field_of name variant)

  unfoldable pub write_base : String → String → Base → Gen W (Unit {0})
  write_base id discrim b =
      if b.create_base
      then (do
        base ← unwrap b.base
        emit x (
            "\n#[derive(Debug, Clone, Serialize, Deserialize)]\npub struct " ∷ base.ty.name ∷ " {\n"
            ∷ [])
        each (write_field x "\t" true id) (without discrim b.fields)
        emit x ("}\n" ∷ []))
      else return tt

  unfoldable pub write_arm : String → String → SpecName × Option Value → Gen W (Unit {0})
  write_arm id enum_name (name, variant) = do
    type_id ← ident id
    variant_id ← ident (spec_name name)
    enum_id ← ident enum_name
    emit x (
        "\n            " ∷ type_id ∷ "::" ∷ variant_id ∷ " { .. } => " ∷ enum_id ∷ "::" ∷ variant_id
        ∷ ",\n" ∷ [])

  unfoldable pub from_wrapped : String → String → String → Option Value → Gen W (Unit {0})
  from_wrapped type_id variant_ty variant_id none = return tt
  from_wrapped type_id variant_ty variant_id (some f) = emit x (
      "\nimpl From<"
      ∷ typename f.ty
      ∷ "> for "
      ∷ type_id
      ∷ " {\n    fn from(val: "
      ∷ typename f.ty
      ∷ ") -> Self {\n        Self::"
      ∷ variant_id
      ∷ "("
      ∷ variant_ty
      ∷ "::from(val))\n    }\n}\n"
      ∷ [])

  unfoldable pub from_variant :
      CombinedUnion → String → Value → String → Option Value → Gen W (Unit {0})
  unfolding from_wrapped wrapped_type
  from_variant u type_id v variant_id none = do
    emit x (
        "\nimpl From<"
        ∷ typename v.ty
        ∷ "> for "
        ∷ type_id
        ∷ " {\n    fn from(val: "
        ∷ typename v.ty
        ∷ ") -> Self {\n        Self::"
        ∷ variant_id
        ∷ "(val)\n    }\n}\n"
        ∷ [])
    wrapped ← gets (wrapped_type u v)
    ty ←
        or_not_found (concat ("could not find qapi type " ∷ v.ty.name ∷ ", needed by " ∷ u.id ∷ []))
          wrapped
    from_wrapped type_id (typename v.ty) variant_id ty
  from_variant u type_id v variant_id (some base) = do
    base_id ← ident base.name
    emit x (
        "\nimpl From<("
        ∷ typename v.ty
        ∷ ", "
        ∷ typename base.ty
        ∷ ")> for "
        ∷ type_id
        ∷ " {\n    fn from(val: ("
        ∷ typename v.ty
        ∷ ", "
        ∷ typename base.ty
        ∷ ")) -> Self {\n        Self::"
        ∷ variant_id
        ∷ " {\n            "
        ∷ variant_id
        ∷ ": val.0,\n            "
        ∷ base_id
        ∷ ": "
        ∷ base_into base.optional (str_eq type_id (typename base.ty))
        ∷ ",\n"
        ∷ [])
    emit x ("\n        }\n    }\n}\n" ∷ [])

  unfoldable pub conversion :
      CombinedUnion → String → Option Value → List String → Value → Gen W (Unit {0})
  unfolding from_variant
  conversion u type_id base duplicates v =
      if any (str_eq v.ty.name) duplicates
      then return tt
      else (do variant_id ← ident v.name; from_variant u type_id v variant_id base)

  unfoldable pub write_union : CombinedUnion → Gen W (Unit {0})
  unfolding write_variant write_base write_arm conversion
  write_union u = do
    let discrim = discriminator_of u.discriminator
    type_id ← ident u.id
    emit x (
        "\n#[derive(Debug, Clone, Serialize, Deserialize)]\n#[serde(tag = \"" ∷ discrim
        ∷ "\")]\npub enum " ∷ type_id ∷ " {\n" ∷ [])
    b ← choose_base discrim type_id u.base
    discrim_field ← unwrap (find_field discrim b.fields)
    enums ← gets (λ c. c.enums)
    discrim_enum ← unwrap (get discrim_field.ty.name enums)
    variants ← unwrap (variants_of discrim_enum.body u.body.fields)
    each (write_variant u.id b.base) variants
    emit x ("}\n" ∷ [])
    write_base u.id discrim b
    method ← ident discrim
    enum_id ← ident discrim_field.ty.name
    emit x (
        "\nimpl " ∷ type_id ∷ " {\n    pub fn " ∷ method ∷ "(&self) -> " ∷ enum_id
        ∷ " {\n        match *self {\n" ∷ [])
    each (write_arm u.id discrim_field.ty.name) variants
    emit x ("\n        }\n    }\n}\n" ∷ [])
    each (conversion u type_id b.base (dups [] u.body.fields)) u.body.fields

  -- `Context::process_unions`
  unfoldable pub process_unions : Gen W (Unit {0})
  process_unions = do unions ← gets (λ c. c.unions); each write_union (values unions)
