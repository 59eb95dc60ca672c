-- ===== src/Tests/Enums.antt =====
-- What the generator writes for an enumeration of two names.
use qapi_rs.Prelude.{◌≡◌, ◌≢◌, refl, String, none, some, [], ◌∷◌}
use qapi_rs.Prelude.Text.{eq_iff}
use qapi_rs.Spec.Enum.{from_name, name}
use qapi_rs.Schema.Types
use qapi_rs.Schema.Types.{SpecName, plain, spec_name}
use qapi_rs.Codegen
use qapi_rs.Codegen.{identifier, is_reserved, replace_dashes}
use qapi_rs.Codegen.Process.{write_enum}
use qapi_rs.Codegen.Process.Tables.{pieces, Writes, print, enumeration, Items, declared}
use qapi_rs.Codegen.Process.Tables.Written.{write_enum_tables}

abbrev mode : Types.Enum
mode = record {
  id = "Mode";
  body = plain "fast" ∷ plain "read-only" ∷ [];
  prefix = none;
  conditional = none;
}

abbrev items : Items
items = (plain "fast", "fast") ∷ (plain "read-only", "read_only") ∷ []

names_differ : ◌≢◌ {A = String} "read-only" "fast"
names_differ e = let h = (eq_iff "read-only" "fast").1 e in cc h

ids_differ : ◌≢◌ {A = String} "read_only" "fast"
ids_differ e = let h = (eq_iff "read_only" "fast").1 e in cc h

write_enum_tables_example :
    let e = enumeration (declared "Mode" items) in
    Writes (write_enum pieces mode) (print (declared "Mode" items))
    × (from_name e "read-only" ≡ some "read_only")
    × (name e "read_only" ≡ some "read-only")
unfolding identifier is_reserved replace_dashes Codegen.by_first
write_enum_tables_example =
    write_enum_tables mode "Mode" items 1 (plain "read-only", "read_only") refl refl
      (refl, (refl, tt)) ((names_differ, tt), (tt, tt)) ((ids_differ, tt), (tt, tt)) refl
