-- ===== src/Tests/Build.antt =====
-- A run of the build script qga/build.rs over a schema of two files that include each other.
use mathlib.Core.List.{Memᴰ}
use qapi_rs.Prelude.{
  ◌≡◌, ◌↔◌, refl, String, true, Option, some, List, [], ◌∷◌, Outcome, ok, err, if◌then◌else◌,
}
use qapi_rs.Spec.{IoError}
use qapi_rs.Parser
use qapi_rs.Parser.Repo
use qapi_rs.Parser.Repo.{FilePath}
use qapi_rs.Codegen.Paths
use qapi_rs.Codegen.Paths.{path_eq}
use qapi_rs.Codegen.Context
use qapi_rs.Codegen.Process
use qapi_rs.Codegen.Unions
use qapi_rs.Codegen.Structs
use qapi_rs.Codegen.Events
use qapi_rs.Codegen.Include
use qapi_rs.Codegen.Include.{codegen}
use qapi_rs.Build
use qapi_rs.Build.{Environment, main_result, first_line}
use qapi_rs.Build.Reports.{Reports, main_result-Reports}
use qapi_rs.Tests.Generator.{reader, no_file, output}

abbrev crate : FilePath
crate = record { absolute = true; components = "crate" ∷ [] }

abbrev in_schema : String → FilePath
in_schema name = record { absolute = true; components = "crate" ∷ "schema" ∷ "qga" ∷ name ∷ [] }

abbrev read_file : FilePath → Outcome IoError String
read_file p =
    if path_eq p (in_schema "qapi-schema.json")
    then ok "b"
    else if path_eq p (in_schema "b.json")
    then ok "q"
    else err no_file

-- A path is shown by its last component.
abbrev last_of : List String → String
last_of [] = ""
last_of (c ∷ []) = c
last_of (c ∷ d ∷ ds) = last_of (d ∷ ds)

abbrev show_path : FilePath → String
show_path p = last_of p.components

abbrev script_run : List String × Option (Outcome IoError (Unit {0}))
script_run =
    main_result show_path output (λ p. ok []) read_file reader (λ e. no_file) 2 3 Build.qga
      (record { out_dir = some crate; manifest_dir = some crate })

abbrev three_lines : List String
three_lines = first_line ∷ "rerun-if-changed=b.json" ∷ "rerun-if-changed=qapi-schema.json" ∷ []

script_run-lines : script_run ≡ (three_lines, some (ok tt))
unfolding main_result Build.report Build.line codegen Include.include Include.visit_at
    Include.process_items Include.rounds Include.visit_all Include.generate Context.new Context.emit
    Context.each Repo.context Repo.include Repo.included Repo.from_include Repo.parent Repo.join
    Repo.opened Repo.push_context Repo.pop_context Repo.drop_context Paths.path_of Paths.chars
    Paths.utf8 path_eq Parser.next Parser.slice Parser.from_string Parser.strip_comments
    Parser.lines Parser.is_code Parser.trim_start Parser.trim_end Parser.is_whitespace
    Parser.strip_line Parser.find_hash Parser.join Process.process Unions.process_unions
    Structs.process_structs Events.process_events
script_run-lines = refl

main_result-Reports_example :
    Memᴰ "rerun-if-changed=b.json" three_lines
    ↔ Reports show_path output
        (λ p. ok [])
        read_file
        reader
        (λ e. no_file)
        2
        3
        Build.qga
        crate
        "rerun-if-changed=b.json"
main_result-Reports_example =
    main_result-Reports show_path output (λ p. ok []) read_file reader (λ e. no_file) 2 3 Build.qga
      crate crate three_lines script_run-lines "rerun-if-changed=b.json"
