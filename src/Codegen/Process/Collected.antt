-- ===== src/Codegen/Process/Collected.antt =====
-- What `Context::process` of codegen/src/lib.rs has collected from the entries of a schema, against
-- a reading of those entries that keeps no maps.
use qapi_rs.Prelude.{
  ◌≡◌, refl, ap, sym, ◌∙◌, String, Option, some, List, [], ◌∷◌, ◌++◌, Outcome, ok, err, panic,
  if◌then◌else◌,
}
use mathlib.Core.List.{append-nil, append_assoc}
use qapi_rs.Prelude.Text.{str_eq}
use qapi_rs.Spec.{IoError}
use qapi_rs.Schema.Types.{Struct, Enum, CombinedUnion, Event, Spec}
use qapi_rs.Codegen.Map.{get, insert}
use qapi_rs.Codegen.Map.Lookup.{get-insert}
use qapi_rs.Codegen.Context.{Context, continue_with, modify, each, Output}
use qapi_rs.Codegen.Process.{write_enum, write_event, process_enum, process_event, process}
use qapi_rs.Codegen.Frame.{each-ok, collected, collected-IsApart}
use qapi_rs.Codegen.Frame.Untouched.{
  due, write_enum-Keeps, write_event-Keeps, process_command-Keeps, process_alternate-Keeps,
  process_union-Keeps,
}

-- What an entry says of a name, over what has been said of it before.
unfoldable pub struct_named : String → Spec → Option Struct → Option Struct
struct_named id (Spec.struct v) o = if str_eq v.id id then some v else o
struct_named id _ o = o

unfoldable pub enum_named : String → Spec → Option Enum → Option Enum
enum_named id (Spec.enum v) o = if str_eq v.id id then some v else o
enum_named id _ o = o

unfoldable pub union_named : String → Spec → Option CombinedUnion → Option CombinedUnion
union_named id (Spec.combined_union v) o = if str_eq v.id id then some v else o
union_named id _ o = o

unfoldable pub event_in : Spec → List Event
event_in (Spec.event v) = v ∷ []
event_in _ = []

-- The last entry of a name, if there is one, and else what was there before.
module _ {V : Type 0} (named : Spec → Option V → Option V) where
  abbrev last : List Spec → Option V → Option V
  last [] o = o
  last (item ∷ s) o = last s (named item o)

-- What the entries hold, in order.
abbrev all_of : {V : Type 0} → (Spec → List V) → List Spec → List V
all_of f [] = []
all_of f (item ∷ s) = f item ++ all_of f s

-- What `after` holds more than `before`, once the entries have been processed.
pub record Collects {V W : Type 0} (specs : List Spec) (before : Context V) (after : Context W)
    : Type 0 where
  pub types :
      (id : String) → get id after.types ≡ last (struct_named id) specs (get id before.types)
  pub enums : (id : String) → get id after.enums ≡ last (enum_named id) specs (get id before.enums)
  pub unions :
      (id : String) → get id after.unions ≡ last (union_named id) specs (get id before.unions)
  pub events : after.events ≡ before.events ++ all_of event_in specs
  pub includes : after.includes ≡ before.includes ++ all_of due specs

-- What an entry adds.
collect : Spec → Context (Unit {0}) → Context (Unit {0})
collect (Spec.include i) c = record c { includes = c.includes ++ i.include ∷ [] }
collect (Spec.struct v) c = record c { types = insert v.id v c.types }
collect (Spec.enum v) c = record c { enums = insert v.id v c.enums }
collect (Spec.event v) c = record c { events = c.events ++ v ∷ [] }
collect (Spec.combined_union v) c = record c { unions = insert v.id v c.unions }
collect _ c = c

collect-types :
    (id : String) (item : Spec) (c : Context (Unit {0}))
    → get id (collect item c).types ≡ struct_named id item (get id c.types)
unfolding collect struct_named
collect-types id (Spec.struct v) c = get-insert id v.id v c.types
collect-types id _ c = refl

collect-enums :
    (id : String) (item : Spec) (c : Context (Unit {0}))
    → get id (collect item c).enums ≡ enum_named id item (get id c.enums)
unfolding collect enum_named
collect-enums id (Spec.enum v) c = get-insert id v.id v c.enums
collect-enums id _ c = refl

collect-unions :
    (id : String) (item : Spec) (c : Context (Unit {0}))
    → get id (collect item c).unions ≡ union_named id item (get id c.unions)
unfolding collect union_named
collect-unions id (Spec.combined_union v) c = get-insert id v.id v c.unions
collect-unions id _ c = refl

collect-events :
    (item : Spec) (c : Context (Unit {0})) → (collect item c).events ≡ c.events ++ event_in item
unfolding collect event_in
collect-events (Spec.event v) c = refl
collect-events _ c = sym (append-nil c.events)

collect-includes :
    (item : Spec) (c : Context (Unit {0})) → (collect item c).includes ≡ c.includes ++ due item
unfolding collect
collect-includes (Spec.include i) c = refl
collect-includes _ c = sym (append-nil c.includes)

-- The entries one after the other.
collect_all : List Spec → Context (Unit {0}) → Context (Unit {0})
collect_all [] c = c
collect_all (item ∷ s) c = collect_all s (collect item c)

collect_all-Collects : (s : List Spec) (c : Context (Unit {0})) → Collects s c (collect_all s c)
unfolding collect_all
collect_all-Collects [] c = record {
  types = λ id. refl;
  enums = λ id. refl;
  unions = λ id. refl;
  events = sym (append-nil c.events);
  includes = sym (append-nil c.includes);
}
collect_all-Collects (item ∷ s) c =
    let k = collect_all-Collects s (collect item c) in
    record {
      types = λ id. k.types id ∙ ap (last (struct_named id) s) (collect-types id item c);
      enums = λ id. k.enums id ∙ ap (last (enum_named id) s) (collect-enums id item c);
      unions = λ id. k.unions id ∙ ap (last (union_named id) s) (collect-unions id item c);
      events =
          k.events
          ∙ ap (λ (l : List Event). l ++ all_of event_in s) (collect-events item c)
          ∙ append_assoc c.events (event_in item) (all_of event_in s);
      includes =
          k.includes
          ∙ ap (λ (l : List String). l ++ all_of due s) (collect-includes item c)
          ∙ append_assoc c.includes (due item) (all_of due s);
    }

module _ {W : Type 0} (x : Output W) where
  -- A step that has written and then collected.
  after_write :
      (f : Context W → Context W) (t : Context W × Outcome IoError (Unit {0})) (d : Context W)
      → continue_with (λ done. modify f) t ≡ (d, ok tt)
      → d ≡ f t.0
  after_write f (c, ok u) d e = cc
  after_write f (c, err g) d e = cc
  after_write f (c, panic) d e = cc

  leaves :
      {t : Context W × Outcome IoError (Unit {0})} {d : Context W}
      → t ≡ (d, ok tt)
      → collected d ≡ collected t.0
  leaves e = ap (λ (t : Context W × Outcome IoError (Unit {0})). collected t.0) (sym e)

  process-collect :
      (item : Spec) (c d : Context W)
      → process x item c ≡ (d, ok tt)
      → collected d ≡ collect item (collected c)
  unfolding process process_enum process_event collect
  process-collect (Spec.include i) c d e = leaves e
  process-collect (Spec.struct v) c d e = leaves e
  process-collect (Spec.combined_union v) c d e = leaves e
  process-collect (Spec.pragma_whitelist p) c d e = leaves e
  process-collect (Spec.pragma_exceptions p) c d e = leaves e
  process-collect (Spec.pragma_doc_required p) c d e = leaves e
  process-collect (Spec.command v) c d e =
      leaves e ∙ (process_command-Keeps collected-IsApart x v).keeps c
  process-collect (Spec.alternate v) c d e =
      leaves e ∙ (process_alternate-Keeps collected-IsApart x v).keeps c
  process-collect (Spec.union v) c d e =
      leaves e ∙ (process_union-Keeps collected-IsApart x v).keeps c
  process-collect (Spec.enum v) c d e =
      ap collected
        (after_write (λ b. record b { enums = insert v.id v b.enums }) (write_enum x v c) d e)
      ∙ ap (collect (Spec.enum v)) ((write_enum-Keeps collected-IsApart x v).keeps c)
  process-collect (Spec.event v) c d e =
      ap collected
        (after_write (λ b. record b { events = b.events ++ v ∷ [] }) (write_event x v c) d e)
      ∙ ap (collect (Spec.event v)) ((write_event-Keeps collected-IsApart x v).keeps c)

  each-collect :
      (s : List Spec) (c d : Context W)
      → each (process x) s c ≡ (d, ok tt)
      → collected d ≡ collect_all s (collected c)
  unfolding each collect_all
  each-collect [] c d e = leaves e
  each-collect (item ∷ s) c d e =
      let (first, rest) = each-ok (process x) item s (process x item c) d e in
      each-collect s (process x item c).0 d rest
      ∙ ap (collect_all s) (process-collect item c (process x item c).0 first)

  -- The entries, processed one after the other.
  pub each-Collects :
      (specs : List Spec) (c d : Context W)
      → each (process x) specs c ≡ (d, ok tt)
      → Collects specs c d
  each-Collects specs c d e =
      let same = each-collect specs c d e in
      let k = collect_all-Collects specs (collected c) in
      record {
        types = λ id. ap (λ (b : Context (Unit {0})). get id b.types) same ∙ k.types id;
        enums = λ id. ap (λ (b : Context (Unit {0})). get id b.enums) same ∙ k.enums id;
        unions = λ id. ap (λ (b : Context (Unit {0})). get id b.unions) same ∙ k.unions id;
        events = ap (λ (b : Context (Unit {0})). b.events) same ∙ k.events;
        includes = ap (λ (b : Context (Unit {0})). b.includes) same ∙ k.includes;
      }
