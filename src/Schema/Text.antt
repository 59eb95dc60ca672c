-- ===== src/Schema/Text.antt =====
-- parser/src/lib.rs, `mod spec`: how a type and a name are shown, and what an entry may leave out.
use qapi_rs.Prelude.{String, Bool, true, Option, none, some, [], ◌∷◌, if◌then◌else◌}
use qapi_rs.Prelude.Text.{concat}
use qapi_rs.Schema.Types.{SpecName, spec_name, SchemaType, Conditional}

-- `AsRef<str>` and `Display` of `SpecName`: the name without what goes with it.
abbrev as_ref : SpecName → String
as_ref n = spec_name n

abbrev display : SpecName → String
display n = as_ref n

-- `Debug` of `Type`; that of `Conditional` is derived.
abbrev debug : (Conditional → String) → SchemaType → String
debug debug_conditional t = concat (
    (if t.is_array then concat ("[" ∷ t.name ∷ "]" ∷ []) else t.name)
    ∷ condition t.conditional
    ∷ [])
  where
    condition : Option Conditional → String
    condition none = ""
    condition (some cond) = concat (" " ∷ debug_conditional cond ∷ [])

-- `Command::success_response_default` and `gen_default`, for keys that an entry leaves out.
abbrev success_response_default : Bool
success_response_default = true

abbrev gen_default : Bool
gen_default = true
