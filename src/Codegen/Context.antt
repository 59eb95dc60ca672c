-- ===== src/Codegen/Context.antt =====
-- `Context` of codegen/src/lib.rs: what the generator has collected, and the writer that it fills.
-- A step of it leaves the context with a value, an error of the writer or of the schema, or a panic.
use qapi_rs.Prelude.{
  String, Bool, true, false, Option, none, some, List, [], ◌∷◌, Outcome, ok, err, panic,
}
use qapi_rs.Spec.{IoError, ErrorKind}
use qapi_rs.Schema.Types.{Value, Enum, Struct, CombinedUnion, Event}
use qapi_rs.Parser.Repo.{FilePath}
use qapi_rs.Codegen.{identifier, valuety}
use qapi_rs.Codegen.Map.{BTreeMap}

-- `included` is a set: only `contains` and `insert` are used of it.
pub record Context (W : Type 0) : Type 0 where
  pub includes : List String
  pub included : List FilePath
  pub events : List Event
  pub unions : BTreeMap CombinedUnion
  pub enums : BTreeMap Enum
  pub types : BTreeMap Struct
  pub struct_discriminators : BTreeMap String
  pub command_trait : String
  pub out : W

-- `Context::new`
unfoldable pub new : {W : Type 0} → W → String → Context W
new out command_trait = record {
  includes = [];
  included = [];
  events = [];
  unions = [];
  enums = [];
  types = [];
  struct_discriminators = [];
  command_trait = command_trait;
  out = out;
}

-- The generator's steps.
abbrev pub Gen : Type 0 → Type 0 → Type 0
Gen W A = Context W → Context W × Outcome IoError A

module _ {W A B : Type 0} where
  abbrev pub continue_with :
      (A → Gen W B) → Context W × Outcome IoError A → Context W × Outcome IoError B
  continue_with f (c, ok a) = f a c
  continue_with f (c, err e) = (c, err e)
  continue_with f (c, panic) = (c, panic)

  infixl 5 ◌>>=◌
  abbrev pub ◌>>=◌ : Gen W A → (A → Gen W B) → Gen W B
  ◌>>=◌ m f c = continue_with f (m c)

infixl 5 ◌>>◌
abbrev pub ◌>>◌ : {W B : Type 0} → Gen W (Unit {0}) → Gen W B → Gen W B
◌>>◌ m k = m >>= λ done. k

module _ {W : Type 0} where
  abbrev pub return : {A : Type 0} → A → Gen W A
  return a c = (c, ok a)

  abbrev fail : {A : Type 0} → IoError → Gen W A
  fail e c = (c, err e)

  -- `assert!`
  unfoldable pub check : Bool → Gen W (Unit {0})
  check true c = (c, ok tt)
  check false c = (c, panic)

  -- An `unwrap`, or a function that may panic.
  abbrev pub unwrap : {A : Type 0} → Option A → Gen W A
  unwrap none c = (c, panic)
  unwrap (some a) c = (c, ok a)

  -- `ok_or_else` with the error of a type that is not there.
  unfoldable pub or_not_found : {A : Type 0} → String → Option A → Gen W A
  or_not_found message none c = (c, err (record { kind = ErrorKind.not_found; message = message }))
  or_not_found message (some a) c = (c, ok a)

  -- `type_identifier` and `identifier`
  unfoldable pub ident : String → Gen W String
  ident id = unwrap (identifier id)

  unfoldable pub field : Value → Bool → String → Gen W String
  field value pubvis super_name = unwrap (valuety value pubvis super_name)

  abbrev pub gets : {A : Type 0} → (Context W → A) → Gen W A
  gets f c = (c, ok (f c))

  abbrev pub modify : (Context W → Context W) → Gen W (Unit {0})
  modify f c = (f c, ok tt)

  -- A `for` loop whose body may end it by an error.
  unfoldable pub each : {A : Type 0} → (A → Gen W (Unit {0})) → List A → Gen W (Unit {0})
  each f [] c = (c, ok tt)
  each f (a ∷ rest) c = continue_with (λ done. each f rest) (f a c)

-- `io::Write`, by what `write_fmt` calls for each piece of a format.
pub record Output (W : Type 0) : Type 0 where
  pub write_str : String → W → W × Outcome IoError (Unit {0})

abbrev written :
    {W : Type 0}
    → W × Outcome IoError (Unit {0})
    → Context W
    → Context W × Outcome IoError (Unit {0})
written (w, r) c = (record c { out = w }, r)

-- `write!` and `writeln!`, by their pieces.
unfoldable pub emit : {W : Type 0} → Output W → List String → Gen W (Unit {0})
emit x pieces = each (λ p c. written (x.write_str p c.out) c) pieces
