-- ===== src/Codegen/Process/Tables.antt =====
-- The Rust that `Context::process` of codegen/src/lib.rs writes for an enumeration, against the
-- trait `Enum` of spec/src/lib.rs, whose tables it fills.
pub mod Written
use mathlib.Core.List.{append_assoc, append-nil}
use qapi_rs.Prelude.{
  ℕ, zero, suc, ◌≡◌, ◌≢◌, refl, ap, sym, subst, ◌∙◌, String, Option, none, some, List, [], ◌∷◌,
  ◌++◌, map, Outcome, ok, arith, All, length, get_elem?, if◌then◌else◌,
}
use qapi_rs.Prelude.Text.{str_eq, eq_iff, show}
use qapi_rs.Spec.Enum
use qapi_rs.Spec.Enum.{Distinct, Fresh-get_elem?, from_name, name, from_name-get_elem?}
use qapi_rs.Schema.Types
use qapi_rs.Schema.Types.{SpecName, spec_name}
use qapi_rs.Codegen.{identifier}
use qapi_rs.Codegen.Context.{Context, Gen, ◌>>◌, each, continue_with, ident, Output, emit, ◌>>=◌}
use qapi_rs.Codegen.Process.{write_enum, enum_variant, enum_constant, enum_name}

-- A writer that takes all that it is given, as the pieces themselves.
abbrev pub pieces : Output (List String)
pieces = record { write_str = λ s w. (w ++ s ∷ [], ok tt) }

-- The step succeeds and writes the pieces, and does nothing else.
abbrev pub Writes : Gen (List String) (Unit {0}) → List String → Type 0
Writes m ps = (c : Context (List String)) → m c ≡ (record c { out = c.out ++ ps }, ok tt)

abbrev pub rows : {A : Type 0} → (A → List String) → List A → List String
rows f [] = []
rows f (a ∷ rest) = f a ++ rows f rest

-- An `enum` item of Rust, with its implementation of the trait: its variants, each under the name
-- that serde gives it, and the three constants.
pub record Declaration : Type 0 where
  pub type_id : String
  pub variants : List (String × String)
  pub count : ℕ
  pub constants : List String
  pub names : List String

abbrev pub variant_row : String × String → List String
variant_row (rename, id) = "\t#[serde(rename = \"" ∷ rename ∷ "\")] " ∷ id ∷ ",\n" ∷ []

abbrev pub constant_row : String → String → List String
constant_row type_id id = type_id ∷ "::" ∷ id ∷ ",\n" ∷ []

abbrev pub name_row : String → List String
name_row n = "\"" ∷ n ∷ "\",\n" ∷ []

-- What stands around the rows.
abbrev pub enum_opening : String → List String
enum_opening type_id =
    "\n#[derive(Debug, Copy, Clone, Serialize, Deserialize, PartialEq, Eq, PartialOrd, Ord, Hash)]\npub enum "
    ∷ type_id ∷ " {\n" ∷ []

abbrev pub enum_end : List String
enum_end = "}\n" ∷ []

abbrev pub implementation : String → ℕ → List String
implementation type_id count =
    "\nimpl ::core::str::FromStr for "
    ∷ type_id
    ∷ " {\n    type Err = ();\n\n    fn from_str(s: &str) -> Result<Self, Self::Err> {\n        ::qapi_spec::Enum::from_name(s).ok_or(())\n    }\n}\n\nunsafe impl ::qapi_spec::Enum for "
    ∷ type_id
    ∷ " {\n    fn discriminant(&self) -> usize { *self as usize }\n\n    const COUNT: usize = "
    ∷ show count
    ∷ ";\n    const VARIANTS: &'static [Self] = &[\n\n"
    ∷ []

abbrev pub names_opening : List String
names_opening = "\n    ];\n    const NAMES: &'static [&'static str] = &[\n\n" ∷ []

abbrev pub names_end : List String
names_end = "\n    ];\n}\n" ∷ []

-- The item as it is spelled.
abbrev pub print : Declaration → List String
print d =
    enum_opening d.type_id
    ++ (rows variant_row d.variants
        ++ (enum_end
            ++ (implementation d.type_id d.count
                ++ (rows (constant_row d.type_id) d.constants
                    ++ (names_opening ++ (rows name_row d.names ++ names_end))))))

-- The enumeration that such an item is: a variant's discriminant is its place among the variants.
unfoldable pub position : String → List String → ℕ
position s [] = 0
position s (t ∷ ts) = if str_eq t s then 0 else suc (position s ts)

abbrev pub enumeration : Declaration → Enum.Enum String
enumeration d = record {
  discriminant = λ id. position id (map (λ v. v.1) d.variants);
  variants = d.constants;
  names = d.names;
}

-- The entry's names with their identifiers.
abbrev pub Items : Type 0
Items = List (SpecName × String)

abbrev pub names_of : Items → List String
names_of items = map (λ p. spec_name p.0) items

-- The body of an entry.
abbrev pub body_of : Items → List SpecName
body_of items = map (λ p. p.0) items

abbrev pub ids_of : Items → List String
ids_of items = map (λ p. p.1) items

abbrev pub declared : String → Items → Declaration
declared type_id items = record {
  type_id = type_id;
  variants = map (λ p. (spec_name p.0, p.1)) items;
  count = length (body_of items);
  constants = ids_of items;
  names = names_of items;
}

abbrev pub AreSpelled : Items → Type 0
AreSpelled items = All (λ p. identifier (spec_name p.0) ≡ some p.1) items
