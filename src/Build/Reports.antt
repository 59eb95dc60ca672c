-- ===== src/Build/Reports.antt =====
-- What the build scripts qga/build.rs and qmp/build.rs print, against the files of the schema.
use mathlib.Core.List.{Memᴰ}
use qapi_rs.Prelude.{
  ◌≢◌, ◌<◌, length, Option-cases, ℕ, ◌≡◌, refl, sym, subst, ap, String, true, Option, none, some,
  List, [], ◌∷◌, map, Outcome, ok, err, panic, ◌↔◌, ◌⊎◌, inl, inr, arith, Bool-cases,
}
use qapi_rs.Spec.{IoError}
use qapi_rs.Schema.Types.{Spec}
use qapi_rs.Parser.{Reader}
use qapi_rs.Parser.Repo.{FilePath}
use qapi_rs.Codegen.Paths.{contains, path_eq}
use qapi_rs.Codegen.Context.{Output}
use qapi_rs.Codegen.Include.{codegen, entries}
use qapi_rs.Codegen.Include.Items.{ends}
use qapi_rs.Codegen.Include.Visited.{path_eq_iff, contains-head}
use qapi_rs.Codegen.Include.Covers.{in_directory, Reaches}
use qapi_rs.Codegen.Include.Generated.{codegen_reads_reachable, codegen_returns}
use qapi_rs.Build.{
  Script, Environment, schema_dir, out_path, first_line, line, report, run_in, main_result,
}

module _ (display : FilePath → String) where
  line-of_contains :
      (p : FilePath) (ps : List FilePath)
      → contains p ps ≡ true
      → Memᴰ (line display p) (map (line display) ps)
  line-of_contains p [] c = cc
  line-of_contains p (q ∷ qs) c = elim (Bool-cases (path_eq p q)) [
    | inl e ↦ Memᴰ.head (ap (line display) ((path_eq_iff p q).0 e))
    | inr e ↦ Memᴰ.tail (line-of_contains p qs (ground (arith, c, e)))
  ]

  contains-of_line :
      (l : String) (ps : List FilePath)
      → Memᴰ l (map (line display) ps)
      → (p : FilePath) × (contains p ps ≡ true) × (l ≡ line display p)
  contains-of_line l [] m = elim m [ ]
  contains-of_line l (q ∷ qs) (Memᴰ.head e) = (q, contains-head q qs, e)
  contains-of_line l (q ∷ qs) (Memᴰ.tail m) =
      let (p, c, e) = contains-of_line l qs m in (p, ground (arith, c), e)

  report-ok :
      {C : Type 0} (run : Option (C × Outcome IoError (List FilePath))) (lines : List String)
      → report display run ≡ (lines, some (ok tt))
      → (c : C) × (included : List FilePath) × (run ≡ some (c, ok included))
        × (lines ≡ first_line ∷ map (line display) included)
  unfolding report
  report-ok none lines e = cc
  report-ok (some (c, ok included)) lines e = (c, included, refl, sym (ap (λ p. p.0) e))
  report-ok (some (c, err f)) lines e = cc
  report-ok (some (c, panic)) lines e = cc

  module _ {W E : Type 0} (x : Output W) (create : FilePath → Outcome IoError W)
      (read_file : FilePath → Outcome IoError String) (r : Reader Spec E) (io_error : E → IoError)
      (items depth : ℕ) where
    -- The lines are the script's own, and one of a file that is reached.
    abbrev pub Reports : Script → FilePath → String → Type 0
    Reports s manifest_dir l =
        (l ≡ first_line)
        ⊎ ((p : FilePath) × Reaches read_file r items
              (in_directory (schema_dir s manifest_dir) "qapi-schema.json") p
            × (l ≡ line display p))

    created-Reports :
        (s : Script) (manifest_dir : FilePath) (created : Outcome IoError W) (lines : List String)
        → report display (
            codegen x read_file r io_error items depth
              (schema_dir s manifest_dir)
              created
              s.command_trait)
          ≡ (lines, some (ok tt))
        → (l : String) → Memᴰ l lines ↔ Reports s manifest_dir l
    unfolding codegen report
    created-Reports s d (err f) lines e l = cc
    created-Reports s d panic lines e l = cc
    created-Reports s d (ok out) lines e l =
        let (c, included, run, same) =
          report-ok
            (codegen x read_file r io_error items depth (schema_dir s d) (ok out) s.command_trait)
            lines e in
        let iff =
          codegen_reads_reachable x read_file r io_error items depth (schema_dir s d)
            s.command_trait out c included run in
        (
          λ m. elim (subst (Memᴰ l) same m) [
            | Memᴰ.head q ↦ inl q
            | Memᴰ.tail n ↦ let (p, k, q) = contains-of_line l included n in inr (p, (iff p).0 k, q)
          ],
          λ h. subst (Memᴰ l) (sym same) (elim h [
            | inl q ↦ Memᴰ.head q
            | inr (p, k, q) ↦ Memᴰ.tail (
                subst (λ t. Memᴰ t (map (line display) included)) (sym q)
                  (line-of_contains p included ((iff p).1 k)))
          ]),
        )

    -- When a build script succeeds, in a crate whose directory is known: the lines that it prints
    -- are that of the script itself and those of the files that the crate's schema reaches by
    -- includes, each named from the directory of the file that includes it, and no others.
    pub main_result-Reports :
        (s : Script) (out_dir manifest_dir : FilePath) (lines : List String)
        → main_result display x create read_file r io_error items depth s
            (record { out_dir = some out_dir; manifest_dir = some manifest_dir })
          ≡ (lines, some (ok tt))
        → (l : String) → Memᴰ l lines ↔ Reports s manifest_dir l
    unfolding main_result
    main_result-Reports s out_dir manifest_dir lines e l =
        created-Reports s manifest_dir (create (out_path s out_dir)) lines e l

    report-ends :
        {C : Type 0} (run : Option (C × Outcome IoError (List FilePath)))
        → run ≢ none
        → (report display run).1 ≢ none
    unfolding report
    report-ends none h = λ e. h refl
    report-ends (some (c, ok included)) h = λ e. cc
    report-ends (some (c, err f)) h = λ e. cc
    report-ends (some (c, panic)) h = λ e. cc

    -- In whatever environment a script runs, it comes to an end, in success, an error or a panic, if
    -- the readable files are among those of a list, shorter than the depth, and the entries of each
    -- come to an end or an error within `items` calls of the parser.
    main_result-ends :
        (s : Script) (env : Environment) (files : List FilePath)
        → ((p : FilePath) (text : String) → read_file p ≡ ok text → contains p files ≡ true)
        → ((p : FilePath) (text : String)
            → read_file p ≡ ok text
            → ends r items (entries text) ≡ true)
        → length files < depth
        → (main_result display x create read_file r io_error items depth s env).1 ≢ none
    unfolding main_result run_in
    main_result-ends s env files readable finite l = elim (Option-cases env.out_dir) [
      | inl no_out ↦ rw no_out (λ e. cc)
      | inr (out_dir, out) ↦ elim (Option-cases env.manifest_dir) [
        | inl no_manifest ↦ rw (out, no_manifest) (λ e. cc)
        | inr (manifest_dir, manifest) ↦
            rw (out, manifest)
              (report-ends _ (
                codegen_returns x read_file r io_error items depth (schema_dir s manifest_dir)
                  s.command_trait files readable finite l (create (out_path s out_dir))))
      ]
    ]
