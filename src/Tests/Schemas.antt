-- ===== src/Tests/Schemas.antt =====
-- Runs of the schema's readers, of an enumeration's tables and of the greeting's capabilities.
use qapi_rs.Prelude.{
  ℕ, ◌≡◌, ◌⊎◌, refl, String, true, false, none, some, [], ◌∷◌, map, Outcome, ok, err,
}
use qapi_rs.Prelude.Int.{pos}
use qapi_rs.Guest
use qapi_rs.Guest.{GuestExecStatus}
use qapi_rs.Qmp.{QapiCapabilities, out_of_band, unknown}
use qapi_rs.Codegen
use qapi_rs.Codegen.{is_reserved, identifier, starts_with_digit}
use qapi_rs.Codegen.Names.{has, identifier_usable}
use qapi_rs.Schema.Types.{SchemaType, Data, new_value}
use qapi_rs.Schema.Read.{visit_str, read_data, read_fields}
use qapi_rs.Schema.Laws.{spelled, read_data-keys}

-- A type that is spelled as a string; nothing fails.
abbrev read_type : String → Outcome String SchemaType
read_type s = ok (visit_str s)

abbrev two_fields : Data
two_fields = record {
  fields =
      record { name = "device"; ty = visit_str "str"; optional = false }
      ∷ record { name = "force"; ty = visit_str "bool"; optional = true }
      ∷ [];
}

read_data-keys_example : map spelled two_fields.fields ≡ "device" ∷ "*force" ∷ []
read_data-keys_example =
    read_data-keys read_type (λ e. e) (("device", "str") ∷ ("*force", "bool") ∷ []) two_fields
      (unfold read_data in unfold read_fields in unfold new_value in refl)

abbrev hello : QapiCapabilities ℕ String
hello = record { qmp = record { version = "9.0"; capabilities = unknown 3 ∷ out_of_band ∷ [] } }

identifier_usable_example :
    (is_reserved "type_" ≡ false) × ((starts_with_digit "type" ≡ true) ⊎ (has b'-' "type_" ≡ false))
identifier_usable_example =
    identifier_usable "type" "type_" (unfold identifier in unfold is_reserved in refl)

identifier_dashes : identifier "buf-b64" ≡ some "buf_b64"
unfolding identifier is_reserved Codegen.by_first Codegen.replace_dashes
identifier_dashes = refl

-- A name that starts with a digit keeps its dashes.
identifier_digit : identifier "3-way" ≡ some "_3-way"
unfolding identifier is_reserved Codegen.by_first
identifier_digit = refl

-- A process that a signal has ended, which leaves no code.
abbrev killed : GuestExecStatus
killed = record { exited = true; exitcode = none; signal = some (pos 9); err_data = none }

killed_fails : Guest.result killed ≡ err killed
unfolding Guest.result
killed_fails = refl
