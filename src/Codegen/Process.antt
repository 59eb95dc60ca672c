-- ===== src/Codegen/Process.antt =====
-- `Context::process` of codegen/src/lib.rs: what an entry of a schema adds to the context, and the
-- Rust that is written for it at once.
pub mod Collected
pub mod Tables
use qapi_rs.Prelude.{
  String, true, not, ◌&&◌, Option, none, some, [], ◌∷◌, ◌++◌, length, if◌then◌else◌,
}
use qapi_rs.Prelude.Text.{str_eq, concat, show}
use qapi_rs.Schema.Types.{
  Value, DataOrType, fields_of, type_of, Alternate, SpecName, Enum, Event, Union, Spec, is_empty,
  spec_name,
}
use qapi_rs.Codegen.{typename, event_identifier}
use qapi_rs.Codegen.Map.{insert}
use qapi_rs.Codegen.Commands.{value_of, write_field, process_command}
use qapi_rs.Codegen.Context.{Gen, ◌>>=◌, ◌>>◌, return, check, ident, modify, each, Output, emit}

-- What the context collects.
module _ {W : Type 0} where
  abbrev push_include : String → Gen W (Unit {0})
  push_include i = modify (λ c. record c { includes = c.includes ++ i ∷ [] })

  abbrev pub push_event : Event → Gen W (Unit {0})
  push_event v = modify (λ c. record c { events = c.events ++ v ∷ [] })

  abbrev pub insert_enum : Enum → Gen W (Unit {0})
  insert_enum v = modify (λ c. record c { enums = insert v.id v c.enums })

module _ {W : Type 0} (x : Output W) where
  -- The one type whose recursion goes through an alternate.
  abbrev alternate_type : Value → String
  alternate_type v =
      if str_eq v.name "definition" && str_eq v.ty.name "BlockdevOptions"
      then concat ("Box<" ∷ typename v.ty ∷ ">" ∷ [])
      else typename v.ty

  unfoldable pub alternate_field : Value → Gen W (Unit {0})
  alternate_field v = do
    check (not v.optional)
    name ← ident v.name
    emit x
        ("\t#[serde(rename = \"" ∷ v.name ∷ "\")] " ∷ name ∷ "(" ∷ alternate_type v ∷ "),\n" ∷ [])

  unfoldable pub process_alternate : Alternate → Gen W (Unit {0})
  unfolding alternate_field
  process_alternate v = do
    type_id ← ident v.id
    emit x (
        "\n#[derive(Debug, Clone, Serialize, Deserialize)]\n#[serde(untagged)]\npub enum " ∷ type_id
        ∷ " {\n" ∷ [])
    each alternate_field v.body.fields
    emit x ("}\n" ∷ [])

  unfoldable pub enum_variant : SpecName → Gen W (Unit {0})
  enum_variant item = do
    name ← ident (spec_name item)
    emit x ("\t#[serde(rename = \"" ∷ spec_name item ∷ "\")] " ∷ name ∷ ",\n" ∷ [])

  unfoldable pub enum_constant : String → SpecName → Gen W (Unit {0})
  enum_constant type_id item = do
    name ← ident (spec_name item)
    emit x (type_id ∷ "::" ∷ name ∷ ",\n" ∷ [])

  abbrev enum_name : SpecName → Gen W (Unit {0})
  enum_name item = emit x ("\"" ∷ spec_name item ∷ "\",\n" ∷ [])

  unfoldable pub write_enum : Enum → Gen W (Unit {0})
  unfolding enum_variant enum_constant
  write_enum v = do
    type_id ← ident v.id
    emit x (
        "\n#[derive(Debug, Copy, Clone, Serialize, Deserialize, PartialEq, Eq, PartialOrd, Ord, Hash)]\npub enum "
        ∷ type_id ∷ " {\n" ∷ [])
    each enum_variant v.body
    emit x ("}\n" ∷ [])
    emit x (
        "\nimpl ::core::str::FromStr for "
        ∷ type_id
        ∷ " {\n    type Err = ();\n\n    fn from_str(s: &str) -> Result<Self, Self::Err> {\n        ::qapi_spec::Enum::from_name(s).ok_or(())\n    }\n}\n\nunsafe impl ::qapi_spec::Enum for "
        ∷ type_id
        ∷ " {\n    fn discriminant(&self) -> usize { *self as usize }\n\n    const COUNT: usize = "
        ∷ show (length v.body)
        ∷ ";\n    const VARIANTS: &'static [Self] = &[\n\n"
        ∷ [])
    each (enum_constant type_id) v.body
    emit x ("\n    ];\n    const NAMES: &'static [&'static str] = &[\n\n" ∷ [])
    each enum_name v.body
    emit x ("\n    ];\n}\n" ∷ [])

  unfoldable pub process_enum : Enum → Gen W (Unit {0})
  unfolding write_enum
  process_enum v = do write_enum v; insert_enum v

  unfoldable pub transparent : DataOrType → Gen W (Unit {0})
  transparent (type_of ty) = do
    emit x ("#[serde(transparent)]\n" ∷ [])
    emit x ("#[repr(transparent)]\n" ∷ [])
  transparent (fields_of d) = return tt

  unfoldable pub event_body : Event → DataOrType → Gen W (Unit {0})
  event_body v (type_of ty) = write_field x "" true v.id (value_of "data" ty)
  event_body v (fields_of d) = each (write_field x "" true v.id) d.fields

  unfoldable pub write_event : Event → Gen W (Unit {0})
  unfolding transparent event_body
  write_event v = do
    emit x (
        "\n#[derive(Debug, Clone, Serialize, Deserialize"
        ∷ (if is_empty v.body then ", Default" else "")
        ∷ ")]\n"
        ∷ [])
    transparent v.body
    emit x ("pub struct " ∷ event_identifier v.id ∷ " {\n" ∷ [])
    event_body v v.body
    emit x ("}\n" ∷ [])
    emit x (
        "\nimpl ::qapi_spec::Event for "
        ∷ event_identifier v.id
        ∷ " {\n    const NAME: &'static str = \""
        ∷ v.id
        ∷ "\";\n}\n"
        ∷ [])

  unfoldable pub process_event : Event → Gen W (Unit {0})
  unfolding write_event
  process_event v = do write_event v; push_event v

  abbrev tag_of : Option String → String
  tag_of (some tag) = tag
  tag_of none = "type"

  unfoldable pub union_variant : Value → Gen W (Unit {0})
  union_variant v = do
    name ← ident v.name
    emit x (
        "\t#[serde(rename = \""
        ∷ v.name
        ∷ "\")]\n\t"
        ∷ name
        ∷ " { data: "
        ∷ typename v.ty
        ∷ " },\n"
        ∷ [])

  unfoldable pub process_union : Union → Gen W (Unit {0})
  unfolding union_variant
  process_union v = do
    type_id ← ident v.id
    emit x (
        "\n#[derive(Debug, Clone, Serialize, Deserialize)]\n#[serde(tag = \""
        ∷ tag_of v.discriminator
        ∷ "\")]\npub enum "
        ∷ type_id
        ∷ " {\n"
        ∷ [])
    each union_variant v.body.fields
    emit x ("}\n" ∷ [])

  -- `Context::process`
  unfoldable pub process : Spec → Gen W (Unit {0})
  unfolding process_alternate process_enum process_event process_union
  process (Spec.include i) = push_include i.include
  process (Spec.command v) = process_command x v
  process (Spec.struct v) = modify (λ c. record c { types = insert v.id v c.types })
  process (Spec.alternate v) = process_alternate v
  process (Spec.enum v) = process_enum v
  process (Spec.event v) = process_event v
  process (Spec.union v) = process_union v
  process (Spec.combined_union v) = modify (λ c. record c { unions = insert v.id v c.unions })
  process (Spec.pragma_whitelist p) = return tt
  process (Spec.pragma_exceptions p) = return tt
  process (Spec.pragma_doc_required p) = return tt
