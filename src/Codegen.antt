-- ===== src/Codegen.antt =====
-- codegen/src/lib.rs, the generator of Rust types: how a schema's names and types are spelled.
pub mod Names
pub mod Map
pub mod Context
pub mod Frame
pub mod Commands
pub mod Process
pub mod Structs
pub mod Variants
pub mod Unions
pub mod Paths
pub mod Include
pub mod Events
use Prim.Native.Char.{Char, code}
use qapi_rs.Prelude.{
  ℕ, String, Bool, true, false, ◌&&◌, ◌||◌, Option, none, some, List, [], ◌∷◌, any, leb, ◌==◌,
  if◌then◌else◌,
}
use qapi_rs.Prelude.Text.{str_eq, concat}
use qapi_rs.Schema.Types.{SchemaType, Value, Features, is_deprecated}

abbrev pub event_identifier : String → String
event_identifier id = id

-- The words that `identifier` renames.
abbrev pub reserved : List String
reserved = "type" ∷ "static" ∷ "virtual" ∷ "abstract" ∷ "in" ∷ "if" ∷ "enum" ∷ "match" ∷ "use" ∷ []

unfoldable pub is_reserved : String → Bool
is_reserved id = any (str_eq id) reserved

abbrev underscore : Char
underscore = "_"

abbrev dash_to_underscore : Char → Char
dash_to_underscore c = if code c == b'-' then underscore else c

-- `id.replace("-", "_")`
unfoldable pub replace_dashes : String → String
replace_dashes String.[] = String.[]
replace_dashes (String.◌∷◌ c s) = String.◌∷◌ (dash_to_underscore c) (replace_dashes s)

abbrev pub is_digit : ℕ → Bool
is_digit c = leb b'0' c && leb c b'9'

abbrev pub starts_with_digit : String → Bool
starts_with_digit String.[] = false
starts_with_digit (String.◌∷◌ c s) = is_digit (code c)

-- What is no reserved word; the index panics on the empty text.
unfoldable pub by_first : String → Option String
by_first String.[] = none
by_first (String.◌∷◌ c s) =
    if is_digit (code c)
    then some (String.◌∷◌ underscore (String.◌∷◌ c s))
    else some (replace_dashes (String.◌∷◌ c s))

-- `identifier`, which `type_identifier` is too; `none` is its panic.
unfoldable pub identifier : String → Option String
identifier id = if is_reserved id then some (concat (id ∷ "_" ∷ [])) else by_first id

-- The names of the schema's types that are Rust's.
abbrev rust_types : List (String × String)
rust_types =
    ("str", "::std::string::String")
    ∷ ("any", "::qapi_spec::Any")
    ∷ ("null", "()")
    ∷ ("number", "f64")
    ∷ ("int8", "i8")
    ∷ ("uint8", "u8")
    ∷ ("int16", "i16")
    ∷ ("uint16", "u16")
    ∷ ("int32", "i32")
    ∷ ("uint32", "u32")
    ∷ ("int64", "i64")
    ∷ ("uint64", "u64")
    ∷ ("size", "u64")
    ∷ ("int", "i64")
    ∷ []

abbrev renamed : List (String × String) → String → String
renamed [] ty = ty
renamed ((n, rust) ∷ ns) ty = if str_eq ty n then rust else renamed ns ty

abbrev typename_s : String → String
typename_s ty = renamed rust_types ty

abbrev pub feature_attrs : Features → String
feature_attrs features = if is_deprecated features then " #[deprecated]" else ""

abbrev pub typename : SchemaType → String
typename ty =
    if ty.is_array then concat ("Vec<" ∷ typename_s ty.name ∷ ">" ∷ []) else typename_s ty.name

-- The fields of bytes, whose text is base64.
abbrev is_base64 : String → Value → Bool
is_base64 super_name value =
    str_eq value.ty.name "str"
    && ((str_eq super_name "GuestFileRead" || str_eq super_name "guest-file-write")
          && str_eq value.name "buf-b64"
        || str_eq super_name "guest-set-user-password" && str_eq value.name "password"
        || str_eq super_name "GuestExecStatus"
          && (str_eq value.name "out-data" || str_eq value.name "err-data")
        || str_eq super_name "guest-exec" && str_eq value.name "input-data"
        || str_eq super_name "get-win32-socket" && str_eq value.name "info"
        || str_eq super_name "SevGuestProperties"
          && (str_eq value.name "dh-cert-file" || str_eq value.name "session-file")
        || str_eq super_name "SecretCommonProperties" && str_eq value.name "iv")

abbrev is_dict : String → Value → Bool
is_dict super_name value =
    str_eq value.ty.name "any"
    && (str_eq super_name "object-add" && str_eq value.name "props"
        || str_eq super_name "CpuModelInfo" && str_eq value.name "props")

-- A field's attribute and type, before it is made optional.
abbrev plain_type : String → Value → String × String
plain_type super_name value =
    if is_base64 super_name value
    then (
      if value.optional
          then ", with = \"::qapi_spec::base64_opt\""
          else ", with = \"::qapi_spec::base64\"",
      "Vec<u8>",
    )
    else if str_eq value.ty.name super_name
    then ("", concat ("Box<" ∷ typename value.ty ∷ ">" ∷ []))
    else if is_dict super_name value
    then ("", "::qapi_spec::Dictionary")
    else if str_eq super_name "guest-shutdown" && str_eq value.name "mode"
    then ("", "GuestShutdownMode")
    else ("", typename value.ty)

abbrev made_optional : Bool → String × String → String × String
made_optional optional (attr, ty) =
    if optional
    then (
      concat (attr ∷ ", default, skip_serializing_if = \"Option::is_none\"" ∷ []),
      concat ("Option<" ∷ ty ∷ ">" ∷ []),
    )
    else (attr, ty)

-- The text of a field, around its name's identifier.
abbrev field_text : Value → Bool → String × String → Option String → Option String
field_text value pubvis (attr, ty) none = none
field_text value pubvis (attr, ty) (some name) = some (
    concat (
      "#[serde(rename = \""
      ∷ value.name
      ∷ "\""
      ∷ attr
      ∷ ")]"
      ∷ feature_attrs value.ty.features
      ∷ "\n"
      ∷ (if pubvis then "pub " else "")
      ∷ name
      ∷ ": "
      ∷ ty
      ∷ []))

-- `valuety`; `none` is the panic of `identifier`.
abbrev pub valuety : Value → Bool → String → Option String
valuety value pubvis super_name =
    field_text value pubvis (made_optional value.optional (plain_type super_name value))
      (identifier value.name)
