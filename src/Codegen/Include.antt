-- ===== src/Codegen/Include.antt =====
-- `include` and `codegen` of codegen/src/lib.rs: the files of a schema, each read once, and the
-- generator over all of them. Reading a file, creating the output and serde_json are parameters.
-- `none` is a run that is out of fuel.
pub mod Visited
pub mod Items
pub mod Entries
pub mod Covers
pub mod Rounds
pub mod Entered
pub mod Reached
pub mod Schemas
pub mod Generated
use qapi_rs.Prelude.{
  ℕ, zero, suc, String, Option, none, some, List, [], ◌∷◌, Outcome, ok, err, panic, if◌then◌else◌,
}
use qapi_rs.Spec.{IoError}
use qapi_rs.Schema.Types.{Spec}
use qapi_rs.Parser.{Parser, Reader, next, from_string, strip_comments}
use qapi_rs.Parser.Repo.{FilePath, QemuFileRepo, join, context, drop_context}
use qapi_rs.Parser.Repo as Repo
use qapi_rs.Codegen.Paths.{path_of, contains, chars, utf8}
use qapi_rs.Codegen.Context.{Context, Gen, new, ◌>>◌, gets, Output}
use qapi_rs.Codegen.Process.{process}
use qapi_rs.Codegen.Unions.{process_unions}
use qapi_rs.Codegen.Structs.{process_structs}
use qapi_rs.Codegen.Events.{process_events}

-- The context and the repository that `include` borrows.
pub record Visit (W : Type 0) : Type 0 where
  pub context : Context W
  pub repo : QemuFileRepo

abbrev pub Run : Type 0 → Type 0
Run W = Option (Visit W × Outcome IoError (Unit {0}))

-- The `?` after a step.
abbrev pub and_then : {W : Type 0} → (Visit W → Run W) → Run W → Run W
and_then k none = none
and_then k (some (s, ok d)) = k s
and_then k (some (s, err e)) = some (s, err e)
and_then k (some (s, panic)) = some (s, panic)

abbrev pub drained : {W : Type 0} → Visit W → Visit W
drained s = record s { context = record s.context { includes = [] } }

-- A loop over names, and the `while` around it, which drains the names that are due.
module _ {W : Type 0} (visit : String → Visit W → Run W) where
  unfoldable pub visit_all : List String → Visit W → Run W
  visit_all [] s = some (s, ok tt)
  visit_all (i ∷ is) s = and_then (visit_all is) (visit i s)

  abbrev pub on_due : (Visit W → Run W) → List String → Visit W → Run W
  on_due again [] s = some (s, ok tt)
  on_due again (i ∷ is) s = and_then again (visit_all (i ∷ is) (drained s))

  unfoldable pub rounds : ℕ → Visit W → Run W
  rounds zero s = none
  rounds (suc n) s = on_due (rounds n) s.context.includes s

module _ {W E : Type 0} (x : Output W) (r : Reader Spec E) (io_error : E → IoError) where
  -- The loop over the entries of a file.
  abbrev pub after_item :
      (Context W → Option (Context W × Outcome IoError (Unit {0})))
      → Context W × Outcome IoError (Unit {0})
      → Option (Context W × Outcome IoError (Unit {0}))
  after_item k (c, ok d) = k c
  after_item k (c, err e) = some (c, err e)
  after_item k (c, panic) = some (c, panic)

  abbrev pub on_item :
      (Parser → Context W → Option (Context W × Outcome IoError (Unit {0})))
      → Parser × Option (Outcome E Spec)
      → Context W
      → Option (Context W × Outcome IoError (Unit {0}))
  on_item k (p, none) c = some (c, ok tt)
  on_item k (p, some (ok item)) c = after_item (k p) (process x item c)
  on_item k (p, some (err e)) c = some (c, err (io_error e))
  on_item k (p, some panic) c = some (c, panic)

  unfoldable pub process_items :
      ℕ → Parser → Context W → Option (Context W × Outcome IoError (Unit {0}))
  process_items zero p c = none
  process_items (suc n) p c = on_item (process_items n) (next r p) c

-- `Parser::from_string(Parser::strip_comments(&str))`
abbrev pub entries : String → Parser
entries text = from_string (utf8 (strip_comments (chars text)))

abbrev pub in_repo :
    {W : Type 0} → QemuFileRepo → Option (Context W × Outcome IoError (Unit {0})) → Run W
in_repo repo none = none
in_repo repo (some (c, result)) = some (record { context = c; repo = repo }, result)

-- The end of `include`, which drops the context of the repository.
abbrev pub closed : {W : Type 0} → Run W → Run W
closed none = none
closed (some (s, result)) =
    let (repo, result') = drop_context (s.repo, result) in some (record s { repo = repo }, result')

abbrev pub mark : {W : Type 0} → FilePath → Context W → Context W
mark p c = record c { included = p ∷ c.included }

module _ {W : Type 0} (x : Output W) where
  -- What `codegen` does once all files are read.
  unfoldable pub generate : Gen W (List FilePath)
  generate = do process_unions x; process_structs x; process_events x; gets (λ c. c.included)

  abbrev pub finished : Run W → Option (Context W × Outcome IoError (List FilePath))
  finished none = none
  finished (some (s, ok d)) = some (generate s.context)
  finished (some (s, err e)) = some (s.context, err e)
  finished (some (s, panic)) = some (s.context, panic)

abbrev pub with_context :
    {W : Type 0}
    → Option (Context W × Outcome IoError (List FilePath))
    → Option (Option (Context W) × Outcome IoError (List FilePath))
with_context none = none
with_context (some (c, result)) = some (some c, result)

module _ {W E : Type 0} (x : Output W) (read_file : FilePath → Outcome IoError String)
    (r : Reader Spec E) (io_error : E → IoError) where
  abbrev pub on_file :
      ℕ → (String → Visit W → Run W) → QemuFileRepo × Outcome IoError String → Context W → Run W
  on_file items visit (repo, ok text) c =
      closed (
        and_then (rounds visit 2)
          (in_repo repo (process_items x r io_error items (entries text) c)))
  on_file items visit (repo, err e) c = some (record { context = c; repo = repo }, err e)
  on_file items visit (repo, panic) c = some (record { context = c; repo = repo }, panic)

  unfoldable pub visit_at :
      ℕ → (String → Visit W → Run W) → String → Option FilePath → Visit W → Run W
  visit_at items visit path none s = some (s, panic)
  visit_at items visit path (some directory) s =
      let include_path = join directory (path_of path) in
      if contains include_path s.context.included
      then some (s, ok tt)
      else on_file items visit (Repo.include read_file (path_of path) s.repo)
          (mark include_path s.context)

  -- `include`, to a depth of includes below the fuel, in files of fewer entries than `items`.
  unfoldable pub include : ℕ → ℕ → String → Visit W → Run W
  include items zero path s = none
  include items (suc depth) path s = visit_at items (include items depth) path (context s.repo) s

  -- `codegen`, on the output that is created.
  unfoldable pub codegen :
      ℕ
      → ℕ
      → FilePath
      → Outcome IoError W
      → String
      → Option (Option (Context W) × Outcome IoError (List FilePath))
  unfolding generate
  codegen items depth schema_path (err e) command_trait = some (none, err e)
  codegen items depth schema_path panic command_trait = some (none, panic)
  codegen items depth schema_path (ok out) command_trait = with_context (
      finished x (
        include items depth "qapi-schema.json"
          (record { context = new out command_trait; repo = Repo.new schema_path })))
