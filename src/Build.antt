-- ===== src/Build.antt =====
-- The build scripts qga/build.rs and qmp/build.rs: the generator run over a crate's schema, and
-- what is printed for Cargo. The environment and the spelling of a path are parameters, and so is
-- all that the generator takes.
pub mod Reports
use qapi_rs.Prelude.{
  ℕ, ◌≡◌, refl, sym, subst, ap, String, true, Option, none, some, List, [], ◌∷◌, ◌++◌, map, Outcome,
  ok, err, panic, ◌↔◌, ◌⊎◌, inl, inr,
}
use qapi_rs.Prelude.Text.{concat}
use qapi_rs.Spec.{IoError}
use qapi_rs.Schema.Types.{Spec}
use qapi_rs.Parser.{Reader}
use qapi_rs.Parser.Repo.{FilePath, join}
use qapi_rs.Codegen.Paths.{path_of, contains}
use qapi_rs.Codegen.Context.{Context, Output}
use qapi_rs.Codegen.Include.{codegen}
use qapi_rs.Codegen.Include.Covers.{in_directory, Reaches}
use qapi_rs.Codegen.Include.Generated.{codegen_reads_reachable}

-- Where the two scripts differ.
pub record Script : Type 0 where
  pub out_name : String
  pub schema_name : String
  pub command_trait : String

abbrev pub qga : Script
qga = record { out_name = "qga.rs"; schema_name = "qga"; command_trait = "QgaCommand" }

abbrev pub qmp : Script
qmp = record { out_name = "qmp.rs"; schema_name = "qapi"; command_trait = "QmpCommand" }

-- `OUT_DIR` and `CARGO_MANIFEST_DIR`, where they are set.
pub record Environment : Type 0 where
  pub out_dir : Option FilePath
  pub manifest_dir : Option FilePath

abbrev pub out_path : Script → FilePath → FilePath
out_path s out_dir = join out_dir (path_of s.out_name)

abbrev pub schema_dir : Script → FilePath → FilePath
schema_dir s manifest_dir = join (join manifest_dir (path_of "schema")) (path_of s.schema_name)

abbrev pub first_line : String
first_line = "rerun-if-changed=build.rs"

-- What is printed, and how it ends; no end is a generator that has run out of fuel.
abbrev pub Printed : Type 0 → Type 0
Printed A = List String × Option (Outcome IoError A)

module _ (display : FilePath → String) where
  unfoldable pub line : FilePath → String
  line inc = concat ("rerun-if-changed=" ∷ display inc ∷ [])

  -- The loop over what the generator gives back, in whatever order its set has.
  unfoldable pub report :
      {C : Type 0} → Option (C × Outcome IoError (List FilePath)) → Printed (Unit {0})
  report none = (first_line ∷ [], none)
  report (some (c, ok included)) = (first_line ∷ map line included, some (ok tt))
  report (some (c, err e)) = (first_line ∷ [], some (err e))
  report (some (c, panic)) = (first_line ∷ [], some panic)

  module _ {W E : Type 0} (x : Output W) (create : FilePath → Outcome IoError W)
      (read_file : FilePath → Outcome IoError String) (r : Reader Spec E) (io_error : E → IoError)
      (items depth : ℕ) where
    run_in : Script → Option FilePath → Option FilePath → Printed (Unit {0})
    unfolding report
    run_in s none manifest_dir = (first_line ∷ [], some panic)
    run_in s (some out_dir) none = (first_line ∷ [], some panic)
    run_in s (some out_dir) (some manifest_dir) = report (
        codegen x read_file r io_error items depth (schema_dir s manifest_dir)
          (create (out_path s out_dir)) s.command_trait)

    -- `main_result`
    unfoldable pub main_result : Script → Environment → Printed (Unit {0})
    unfolding run_in
    main_result s env = run_in s env.out_dir env.manifest_dir

    -- `main`: an error is a panic.
    abbrev main : Script → Environment → Printed (Unit {0})
    main s env = let (lines, end) = main_result s env in (lines, unless_error end)
      where
        unless_error : Option (Outcome IoError (Unit {0})) → Option (Outcome IoError (Unit {0}))
        unless_error none = none
        unless_error (some (ok d)) = some (ok d)
        unless_error (some (err e)) = some panic
        unless_error (some panic) = some panic
