-- ===== src/Schema/Types.antt =====
-- parser/src/lib.rs, `mod spec`: the entries of a QAPI schema and the tests on them.
use Prim.Native.Char.{code}
use qapi_rs.Prelude.{
  ℕ, String, Bool, true, false, ◌&&◌, ◌||◌, Option, none, some, List, [], ◌∷◌, length, any, all,
  if◌then◌else◌, ◌==◌,
}
use qapi_rs.Prelude.Text.{str_eq}

pub data Feature : Type 0 where
  deprecated unstable json_cli json_cli_hotplug : Feature
  allow_write_only_overlay dynamic_auto_read_only savevm_monitor_nodes fdset : Feature

-- A `#define`d symbol.
abbrev ConditionalDefinition : Type 0
ConditionalDefinition = String

pub data Conditional : Type 0 where
  define not : ConditionalDefinition → Conditional
  all_of any_of : List ConditionalDefinition → Conditional

pub data ConditionalFeature : Type 0 where
  feature : Feature → ConditionalFeature
  conditional : Feature → Option Conditional → ConditionalFeature

abbrev pub Features : Type 0
Features = List ConditionalFeature

-- The struct `Type`.
pub record SchemaType : Type 0 where
  pub name : String
  pub is_array : Bool
  pub conditional : Option Conditional
  pub features : Features

pub record Value : Type 0 where
  pub name : String
  pub ty : SchemaType
  pub optional : Bool

pub record Data : Type 0 where
  pub fields : List Value

pub data DataOrType : Type 0 where
  fields_of : Data → DataOrType
  type_of : SchemaType → DataOrType

pub record Include : Type 0 where
  pub include : String

pub record Command : Type 0 where
  pub id : String
  pub body : DataOrType
  pub returns : Option SchemaType
  pub conditional : Option Conditional
  pub allow_oob : Bool
  pub coroutine : Bool
  pub boxed : Bool
  pub success_response : Bool
  pub allow_preconfig : Bool
  pub features : Features
  pub gen : Bool

pub record Struct : Type 0 where
  pub id : String
  pub body : Data
  pub base : DataOrType
  pub conditional : Option Conditional
  pub features : Features

pub record Alternate : Type 0 where
  pub id : String
  pub body : Data
  pub conditional : Option Conditional

pub data SpecName : Type 0 where
  plain : String → SpecName
  conditional : String → Conditional → Features → SpecName
  explicit : String → Features → SpecName

pub record Enum : Type 0 where
  pub id : String
  pub body : List SpecName
  pub prefix : Option String
  pub conditional : Option Conditional

pub record CombinedUnion : Type 0 where
  pub id : String
  pub base : DataOrType
  pub discriminator : Option String
  pub body : Data
  pub conditional : Option Conditional

pub record Union : Type 0 where
  pub id : String
  pub discriminator : Option String
  pub body : Data
  pub conditional : Option Conditional

pub record Event : Type 0 where
  pub id : String
  pub body : DataOrType
  pub conditional : Option Conditional
  pub features : Features

pub record PragmaWhitelist : Type 0 where
  pub returns_whitelist : List String
  pub name_case_whitelist : List String

pub record PragmaExceptions : Type 0 where
  pub command_returns_exceptions : List String
  pub member_name_exceptions : List String

pub record PragmaDocRequired : Type 0 where
  pub doc_required : Bool

pub data Spec : Type 0 where
  include : Include → Spec
  command : Command → Spec
  struct : Struct → Spec
  alternate : Alternate → Spec
  enum : Enum → Spec
  event : Event → Spec
  combined_union : CombinedUnion → Spec
  union : Union → Spec
  pragma_whitelist : PragmaWhitelist → Spec
  pragma_exceptions : PragmaExceptions → Spec
  pragma_doc_required : PragmaDocRequired → Spec

-- `PartialEq` of `Feature`, as derived.
feature_index : Feature → ℕ
feature_index deprecated = 0
feature_index unstable = 1
feature_index json_cli = 2
feature_index json_cli_hotplug = 3
feature_index allow_write_only_overlay = 4
feature_index dynamic_auto_read_only = 5
feature_index savevm_monitor_nodes = 6
feature_index fdset = 7

-- `PartialEq<Feature> for ConditionalFeature`
is_feature : Feature → ConditionalFeature → Bool
unfolding feature_index
is_feature rhs (feature name) = feature_index name == feature_index rhs
is_feature rhs (conditional name c) = feature_index name == feature_index rhs

abbrev pub is_deprecated : Features → Bool
unfolding is_feature
is_deprecated features = any (is_feature deprecated) features

-- `Value::new`: a star before the name marks an optional field.
unfoldable pub new_value : String → SchemaType → Value
new_value String.[] ty = record { name = ""; ty = ty; optional = false }
new_value (String.◌∷◌ c s) ty =
    if code c == b'*'
    then record { name = s; ty = ty; optional = true }
    else record { name = String.◌∷◌ c s; ty = ty; optional = false }

abbrev is_nil : {A : Type 0} → List A → Bool
is_nil [] = true
is_nil (x ∷ xs) = false

-- `Data::is_empty` and `Data::newtype`
pub data_is_empty : Data → Bool
data_is_empty d = is_nil d.fields || all (λ f. f.optional) d.fields

unfoldable pub only : List Value → Option Value
only (f ∷ []) = some f
only fs = none

pub data_newtype : Data → Option Value
unfolding only
data_newtype d = only d.fields

-- `DataOrType::default`, `is_empty` and `len`
abbrev pub default_body : DataOrType
default_body = fields_of (record { fields = [] })

pub is_empty : DataOrType → Bool
is_empty (fields_of d) = is_nil d.fields
is_empty (type_of ty) = false

abbrev len : DataOrType → ℕ
len (fields_of d) = length d.fields
len (type_of ty) = 1

-- `str::ends_with`
ends_with : String → String → Bool
ends_with t String.[] = str_eq String.[] t
ends_with t (String.◌∷◌ c s) = str_eq (String.◌∷◌ c s) t || ends_with t s

unfoldable pub without_base : DataOrType → Struct → Option Value
unfolding data_newtype is_empty
without_base (fields_of d) s = if is_nil d.fields then data_newtype s.body else none
without_base (type_of ty) s = none

-- `Struct::newtype`, `wrapper_type` and `is_empty`
unfoldable pub newtype : Struct → Option Value
unfolding without_base
newtype s = without_base s.base s

abbrev pub wrapper_type : Struct → Option Value
unfolding ends_with
wrapper_type s = if ends_with "Wrapper" s.id then newtype s else none

abbrev pub struct_is_empty : Struct → Bool
unfolding is_empty data_is_empty
struct_is_empty s = is_empty s.base && data_is_empty s.body

-- `SpecName::name` and `features`
abbrev pub spec_name : SpecName → String
spec_name (plain name) = name
spec_name (explicit name f) = name
spec_name (SpecName.conditional name c f) = name

abbrev spec_features : SpecName → Option Features
spec_features (plain name) = none
spec_features (explicit name f) = some f
spec_features (SpecName.conditional name c f) = some f
