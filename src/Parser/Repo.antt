-- ===== src/Parser/Repo.antt =====
-- `QemuRepo`, `QemuFileRepo` and `QemuRepoContext` of parser/src/lib.rs: an include is relative to
-- the directory on the top of a stack, which a context pushes and, when it is dropped, pops.
-- The file system is a parameter.
use qapi_rs.Prelude.{
  Bool, Option, none, some, List, [], ◌∷◌, ◌++◌, Outcome, ok, err, panic, String, if◌then◌else◌,
}
use qapi_rs.Spec.{IoError}

-- `std::path::Path`, by its components.
pub record FilePath : Type 0 where
  pub absolute : Bool
  pub components : List String

-- `Path::join`: an absolute path replaces what it is joined to.
unfoldable pub join : FilePath → FilePath → FilePath
join base p =
    if p.absolute
    then p
    else record { absolute = base.absolute; components = base.components ++ p.components }

-- `Path::parent`: a path without components has none.
unfoldable pub all_but_last : List String → Option (List String)
all_but_last [] = none
all_but_last (c ∷ []) = some []
all_but_last (c ∷ d ∷ ds) = elim (all_but_last (d ∷ ds)) [ none ↦ none | some ds' ↦ some (c ∷ ds') ]

unfoldable pub parent : FilePath → Option FilePath
unfolding all_but_last
parent p = elim (all_but_last p.components) [
  | none ↦ none
  | some cs ↦ some (record { absolute = p.absolute; components = cs })
]

-- The struct `QemuFileRepo`, its top path first.
pub record QemuFileRepo : Type 0 where
  pub paths : List FilePath

abbrev pub new : FilePath → QemuFileRepo
new p = record { paths = p ∷ [] }

unfoldable pub push_context : FilePath → QemuFileRepo → QemuFileRepo
push_context p r = record { paths = p ∷ r.paths }

-- The assertion holds while a path is left.
abbrev popped : List FilePath → QemuFileRepo × Outcome IoError (Unit {0})
popped [] = (record { paths = [] }, panic)
popped (p ∷ []) = (record { paths = [] }, panic)
popped (p ∷ q ∷ ps) = (record { paths = q ∷ ps }, ok tt)

unfoldable pub pop_context : QemuFileRepo → QemuFileRepo × Outcome IoError (Unit {0})
pop_context r = popped r.paths

abbrev top : List FilePath → Option FilePath
top [] = none
top (p ∷ ps) = some p

-- `context`: `unwrap` panics on the empty stack.
unfoldable pub context : QemuFileRepo → Option FilePath
context r = top r.paths

-- `QemuRepoContext::from_include`: the repository with the include's directory pushed, and the
-- include's path; `none` is a panic.
abbrev pub pushed : QemuFileRepo → FilePath → Option FilePath → Option (QemuFileRepo × FilePath)
pushed r include_path none = none
pushed r include_path (some directory) = some (push_context directory r, include_path)

abbrev joined : QemuFileRepo → FilePath → Option FilePath → Option (QemuFileRepo × FilePath)
joined r path none = none
joined r path (some base) = pushed r (join base path) (parent (join base path))

unfoldable pub from_include : QemuFileRepo → FilePath → Option (QemuFileRepo × FilePath)
from_include r path = joined r path (context r)

-- The drop of a context, with the outcome that its scope has come to.
unfoldable pub drop_context :
    {A : Type 0} → QemuFileRepo × Outcome IoError A → QemuFileRepo × Outcome IoError A
drop_context (r, result) =
    let (r', dropped) = pop_context r in
    elim dropped [ ok d ↦ (r', result) | err e ↦ (r', err e) | panic ↦ (r', panic) ]

module _ (read_file : FilePath → Outcome IoError String) where
  -- What is read goes on inside of the context; an error drops it.
  unfoldable pub opened :
      QemuFileRepo → Outcome IoError String → QemuFileRepo × Outcome IoError String
  opened r (ok text) = (r, ok text)
  opened r (err e) = drop_context (r, err e)
  opened r panic = (r, panic)

  unfoldable pub included :
      QemuFileRepo → Option (QemuFileRepo × FilePath) → QemuFileRepo × Outcome IoError String
  included r none = (r, panic)
  included r (some (r', path)) = opened r' (read_file path)

  -- `QemuFileRepo::include`
  unfoldable pub include : FilePath → QemuFileRepo → QemuFileRepo × Outcome IoError String
  include path r = included r (from_include r path)

-- The trait `QemuRepo`.
record QemuRepo (R Error : Type 0) : Type 0 where
  push_context : FilePath → R → R
  pop_context : R → R × Outcome IoError (Unit {0})
  context : R → Option FilePath
  include : FilePath → R → R × Outcome Error String

-- `QemuRepo for QemuFileRepo`
abbrev file_repo : (FilePath → Outcome IoError String) → QemuRepo QemuFileRepo IoError
file_repo read_file = record {
  push_context = push_context;
  pop_context = pop_context;
  context = context;
  include = include read_file;
}
