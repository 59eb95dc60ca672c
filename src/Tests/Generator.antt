-- ===== src/Tests/Generator.antt =====
-- Runs of the generator over a schema of two files that include each other.
use qapi_rs.Prelude.{
  ℕ, ◌≡◌, ◌≢◌, ◌≤◌, ◌↔◌, refl, sym, ◌∙◌, String, true, false, none, some, List, [], ◌∷◌, ◌++◌,
  Outcome, ok, err, arith, Bool-cases, ◌==◌, if◌then◌else◌, inl, inr, if_true, if_false,
  ok_injective, subst, Option, ◌⊎◌,
}
use qapi_rs.Prelude.Text.{str_eq, eq_iff}
use qapi_rs.Spec.{IoError, ErrorKind}
use qapi_rs.Schema.Types.{Spec, SchemaType, Value, Struct, SpecName, plain, default_body}
use qapi_rs.Codegen.Map
use qapi_rs.Codegen.Structs.{drop_discriminator}
use qapi_rs.Codegen.Structs.Discriminators.{Loses, discriminators_taken_off}
use qapi_rs.Codegen.Variants.{is_named, variants_of, field_variants, find_name, other_variants}
use qapi_rs.Codegen.Variants.Complete.{count, names_value, variants_complete}
use qapi_rs.Parser
use qapi_rs.Parser.{Text, Reader}
use qapi_rs.Parser.Repo
use qapi_rs.Parser.Repo.{FilePath}
use qapi_rs.Codegen.Paths
use qapi_rs.Codegen.Paths.{contains, path_eq}
use qapi_rs.Codegen.Context
use qapi_rs.Codegen.Context.{Context, Output}
use qapi_rs.Codegen.Process
use qapi_rs.Codegen.Unions
use qapi_rs.Codegen.Structs
use qapi_rs.Codegen.Events
use qapi_rs.Codegen.Include
use qapi_rs.Codegen.Include.{codegen, entries}
use qapi_rs.Codegen.Process.Collected.{Collects}
use qapi_rs.Codegen.Include.Entries.{specs, process_items-Collects}
use qapi_rs.Codegen.Include.Items.{ends}
use qapi_rs.Codegen.Include.Covers.{in_directory, Reaches}
use qapi_rs.Codegen.Include.Generated.{codegen_reads_reachable, codegen_returns}

abbrev spec_type : String → SchemaType
spec_type n = record { name = n; is_array = false; conditional = none; features = [] }

abbrev member : String → String → Value
member n ty = record { name = n; ty = spec_type ty; optional = false }

abbrev base_struct : Struct
base_struct = record {
  id = "Base";
  body = record { fields = member "driver" "Driver" ∷ member "node" "str" ∷ [] };
  base = default_body;
  conditional = none;
  features = [];
}

-- An entry is one letter: a struct, or an include of one of two files.
abbrev letter : ℕ → Outcome (ℕ × ℕ) Spec
letter c =
    if c == b'b'
    then ok (Spec.include (record { include = "b.json" }))
    else if c == b's'
    then ok (Spec.struct base_struct)
    else ok (Spec.include (record { include = "qapi-schema.json" }))

abbrev from_str : Text → Outcome (ℕ × ℕ) Spec
from_str [] = err (0, 0)
from_str (c ∷ cs) = letter c

abbrev pub reader : Reader Spec (ℕ × ℕ)
reader = record { from_str = from_str; line = λ e. e.0; column = λ e. e.1 }

abbrev pub no_file : IoError
no_file = record { kind = ErrorKind.not_found; message = "" }

abbrev schema_path : FilePath
schema_path = record { absolute = false; components = "qapi" ∷ [] }

abbrev first_file : FilePath
first_file = record { absolute = false; components = "qapi" ∷ "qapi-schema.json" ∷ [] }

abbrev second_file : FilePath
second_file = record { absolute = false; components = "qapi" ∷ "b.json" ∷ [] }

abbrev read_file : FilePath → Outcome IoError String
read_file p =
    if path_eq p first_file then ok "b" else if path_eq p second_file then ok "q" else err no_file

-- The output is the text that is written to it.
abbrev pub output : Output (List String)
output = record { write_str = λ s w. (w ++ s ∷ [], ok tt) }

abbrev run : Option (Option (Context (List String)) × Outcome IoError (List FilePath))
run = codegen output read_file reader (λ e. no_file) 2 3 schema_path (ok []) "QmpCommand"

abbrev both : List FilePath
both = second_file ∷ first_file ∷ []

abbrev result_context :
    Option (Option (Context (List String)) × Outcome IoError (List FilePath))
    → Option (Context (List String))
result_context none = none
result_context (some (c, result)) = c

run-both : run ≡ some (result_context run, ok both)
unfolding codegen Include.include Include.visit_at Include.process_items Include.rounds
    Include.visit_all Include.generate Context.new Context.emit Context.each Repo.context
    Repo.include Repo.included Repo.from_include Repo.parent Repo.join Repo.opened Repo.push_context
    Repo.pop_context Repo.drop_context Paths.path_of Paths.chars Paths.utf8 path_eq Parser.next
    Parser.slice Parser.from_string Parser.strip_comments Parser.lines Parser.is_code
    Parser.trim_start Parser.trim_end Parser.is_whitespace Parser.strip_line Parser.find_hash
    Parser.join Process.process Unions.process_unions Structs.process_structs Events.process_events
run-both = refl

codegen_reads_reachable_example :
    (contains second_file both ≡ true)
    ↔ Reaches read_file reader 2 (in_directory schema_path "qapi-schema.json") second_file
codegen_reads_reachable_example =
    codegen_reads_reachable output read_file reader (λ e. no_file) 2 3 schema_path "QmpCommand" []
      (result_context run) both run-both second_file

read_file-cases :
    (p : FilePath) (text : String)
    → read_file p ≡ ok text
    → ((path_eq p first_file ≡ true) × ("b" ≡ text))
      ⊎ ((path_eq p second_file ≡ true) × ("q" ≡ text))
read_file-cases p text e = elim (Bool-cases (path_eq p first_file)) [
  | inl a ↦ inl (a, ok_injective (sym (if_true _ _ a) ∙ e))
  | inr a ↦ elim (Bool-cases (path_eq p second_file)) [
    | inl b ↦ inr (b, ok_injective (sym (if_true _ _ b) ∙ sym (if_false _ _ a) ∙ e))
    | inr b ↦ cc (a, b, e)
  ]
]

both_end : (ends reader 2 (entries "b") ≡ true) × (ends reader 2 (entries "q") ≡ true)
unfolding ends Paths.chars Paths.utf8 Parser.next Parser.slice Parser.from_string
    Parser.strip_comments Parser.lines Parser.is_code Parser.trim_start Parser.trim_end
    Parser.is_whitespace Parser.strip_line Parser.find_hash Parser.join
both_end = (refl, refl)

codegen_returns_example :
    codegen output read_file reader (λ e. no_file) 2 3 schema_path (ok []) "QmpCommand" ≢ none
codegen_returns_example =
    codegen_returns output read_file reader (λ e. no_file) 2 3 schema_path "QmpCommand" both
      (λ p text e. elim (read_file-cases p text e) [
        | inl a ↦ ground (arith, a.0)
        | inr a ↦ ground (arith, a.0)
      ])
      (λ p text e. elim (read_file-cases p text e) [
        | inl a ↦ subst (λ (t : String). ends reader 2 (entries t) ≡ true) a.1 both_end.0
        | inr a ↦ subst (λ (t : String). ends reader 2 (entries t) ≡ true) a.1 both_end.1
      ])
      (omega arith) (ok [])

-- The enum of a discriminator, and a union with a field for its second value only.
abbrev drivers : List SpecName
drivers = plain "raw" ∷ plain "qcow2" ∷ []

abbrev union_fields : List Value
union_fields = member "qcow2" "Qcow2Options" ∷ []

abbrev union_variants : List (SpecName × Option Value)
union_variants = (plain "qcow2", some (member "qcow2" "Qcow2Options")) ∷ (plain "raw", none) ∷ []

drivers-once : (n : String) → count (names_value n) drivers ≤ 1
drivers-once n = elim (Bool-cases (str_eq "raw" n)) [
  | inl a ↦ rw (← (eq_iff "raw" n).0 a) (omega arith)
  | inr a ↦ ground (arith, a)
]

variants_complete_example : count (is_named "raw") union_variants ≡ 1
variants_complete_example =
    variants_complete drivers union_fields union_variants drivers-once (λ n. ground arith)
      (unfold variants_of in
        unfold field_variants in unfold find_name in unfold other_variants in refl)
      "raw"

abbrev with_base : Context (List String)
with_base = record (unfold Context.new in Context.new [] "QmpCommand") {
  types = ("Base", base_struct) ∷ [];
}

abbrev base_left : Context (List String)
base_left = record with_base {
  types = ("Base", record base_struct { body = record { fields = member "node" "str" ∷ [] } }) ∷ [];
}

discriminators_taken_off_example :
    Loses (some "driver") (some base_struct) (Map.get "Base" base_left.types)
unfolding Map.get Map.update Context.each Context.or_not_found drop_discriminator
    Structs.without_field Structs.without
discriminators_taken_off_example =
    discriminators_taken_off (("Base", "driver") ∷ []) with_base base_left (refl, tt) refl "Base"

abbrev start : Context (List String)
start = Context.new [] "QmpCommand"

start-processed :
    Include.process_items output reader (λ e. no_file) 2 (entries "s") start
    ≡ some (record start { types = ("Base", base_struct) ∷ [] }, ok tt)
unfolding Context.new Include.process_items Paths.chars Paths.utf8 Parser.next Parser.slice
    Parser.from_string Parser.strip_comments Parser.lines Parser.is_code Parser.trim_start
    Parser.trim_end Parser.is_whitespace Parser.strip_line Parser.find_hash Parser.join
    Process.process Map.insert
start-processed = refl

process_items-Collects_example :
    Collects
      (specs reader 2 (entries "s"))
      start
      (record start { types = ("Base", base_struct) ∷ [] })
process_items-Collects_example =
    process_items-Collects output reader (λ e. no_file) 2 (entries "s") start
      (record start { types = ("Base", base_struct) ∷ [] }) start-processed
