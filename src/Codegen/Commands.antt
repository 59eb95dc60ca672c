-- ===== src/Codegen/Commands.antt =====
-- The part of `Context::process` of codegen/src/lib.rs that is about commands: the struct of a
-- command's arguments and its traits.
use qapi_rs.Prelude.{String, Bool, true, false, Option, none, some, [], ◌∷◌, if◌then◌else◌}
use qapi_rs.Prelude.Text.{str_eq}
use qapi_rs.Schema.Types.{SchemaType, Value, DataOrType, fields_of, type_of, Command}
use qapi_rs.Codegen.{typename, feature_attrs}
use qapi_rs.Codegen.Context.{Gen, ◌>>=◌, ◌>>◌, return, ident, field, gets, each, Output, emit}

-- A type that stands for the whole body of an entry, as a field.
abbrev pub value_of : String → SchemaType → Value
value_of name ty = record { name = name; ty = ty; optional = false }

module _ {W : Type 0} (x : Output W) where
  -- The fields of a body, one a line, between two texts.
  unfoldable pub write_field : String → Bool → String → Value → Gen W (Unit {0})
  write_field before pubvis super_name v = do
    text ← field v pubvis super_name
    emit x (before ∷ text ∷ ",\n" ∷ [])

  unfoldable pub flattened : Bool → Gen W (Unit {0})
  flattened gen =
      if gen
      then return tt
      else emit x ("\n    #[serde(flatten)]\n    pub arguments: ::qapi_spec::Dictionary,\n\n" ∷ [])

  unfoldable pub command_body : Command → String → DataOrType → Gen W (Unit {0})
  unfolding flattened
  command_body v type_id (fields_of d) = do
    emit x (" {\n" ∷ [])
    each (write_field "\t" true v.id) d.fields
    flattened v.gen
    emit x ("}\n" ∷ [])
  command_body v type_id (type_of ty) = do
    ty_name ← ident ty.name
    emit x ("(" ∷ feature_attrs ty.features ∷ "pub " ∷ ty_name ∷ ");\n" ∷ [])
    emit x (
        "\nimpl From<" ∷ ty_name ∷ "> for " ∷ type_id ∷ " {\n    fn from(val: " ∷ ty_name
        ∷ ") -> Self {\n        Self(val)\n    }\n}\n\n" ∷ [])

  unfoldable pub command_struct : Command → String → Gen W (Unit {0})
  unfolding command_body
  command_struct v type_id = do
    emit x (
        "\n#[derive(Debug, Clone, Serialize, Deserialize)]"
        ∷ feature_attrs v.features
        ∷ "\npub struct "
        ∷ type_id
        ∷ [])
    command_body v type_id v.body

  -- A command whose body is the type of its own name has no struct of its own.
  unfoldable pub command_type : Command → String → DataOrType → Gen W (Unit {0})
  unfolding command_struct
  command_type v type_id (fields_of d) = command_struct v type_id
  command_type v type_id (type_of ty) = do
    ty_name ← ident ty.name
    if str_eq ty_name type_id then return tt else command_struct v type_id

  unfoldable pub command_returns : Option SchemaType → Gen W (Unit {0})
  command_returns (some ret) = emit x (typename ret ∷ ";\n" ∷ [])
  command_returns none = emit x ("::qapi_spec::Empty;\n" ∷ [])

  abbrev show_bool : Bool → String
  show_bool true = "true"
  show_bool false = "false"

  unfoldable pub command_impl : String → Command → String → Gen W (Unit {0})
  unfolding command_returns
  command_impl command_trait v type_id = do
    emit x (
        "\nimpl crate::"
        ∷ command_trait
        ∷ " for "
        ∷ type_id
        ∷ " { }\nimpl ::qapi_spec::Command for "
        ∷ type_id
        ∷ " {\n    const NAME: &'static str = \""
        ∷ v.id
        ∷ "\";\n    const ALLOW_OOB: bool = "
        ∷ show_bool v.allow_oob
        ∷ ";\n\n    type Ok = "
        ∷ [])
    command_returns v.returns
    emit x ("}\n" ∷ [])

  -- A command, on every branch of its body.
  unfoldable pub process_command : Command → Gen W (Unit {0})
  unfolding command_type command_impl
  process_command v = do
    type_id ← ident v.id
    command_type v type_id v.body
    command_trait ← gets (λ c. c.command_trait)
    command_impl command_trait v type_id
