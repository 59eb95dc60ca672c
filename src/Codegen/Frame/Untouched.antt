-- ===== src/Codegen/Frame/Untouched.antt =====
-- What `Context::process` of codegen/src/lib.rs leaves alone: only an include adds to the names that
-- are due, and nothing to the files that have been read.
use qapi_rs.Prelude.{String, Bool, Option, none, some, List, [], ◌∷◌, ◌++◌, ◌≡◌, refl, ap, sym, ◌∙◌}
use mathlib.Core.List.{append-nil}
use qapi_rs.Schema.Types.{
  SchemaType, Value, DataOrType, fields_of, type_of, Command, Alternate, SpecName, Enum, Event,
  Union, Spec,
}
use qapi_rs.Codegen.Context.{Context, Gen, Output}
use qapi_rs.Codegen.Frame.{Keeps, IsApart, frame, files, files-IsApart, >>=-Keeps}
use qapi_rs.Codegen.Commands.{
  write_field, flattened, command_body, command_struct, command_type, command_returns, command_impl,
  process_command,
}
use qapi_rs.Codegen.Process.{
  insert_enum, push_event, alternate_field, process_alternate, enum_variant, enum_constant,
  write_enum, process_enum, transparent, event_body, write_event, process_event, union_variant,
  process_union, process,
}

module _ {W P : Type 0} {part : Context W → P} (apart : IsApart part) (x : Output W) where
  pub write_field-Keeps :
      (before : String) (pubvis : Bool) (name : String) (v : Value)
      → Keeps part (write_field x before pubvis name v)
  unfolding write_field
  write_field-Keeps before pubvis name v = search frame

  command_body-Keeps :
      (v : Command) (type_id : String) (b : DataOrType) → Keeps part (command_body x v type_id b)
  unfolding command_body flattened
  command_body-Keeps v type_id (fields_of d) = search (frame, write_field-Keeps)
  command_body-Keeps v type_id (type_of ty) = search frame

  command_struct-Keeps : (v : Command) (type_id : String) → Keeps part (command_struct x v type_id)
  unfolding command_struct
  command_struct-Keeps v type_id = search (frame, command_body-Keeps)

  command_type-Keeps :
      (v : Command) (type_id : String) (b : DataOrType) → Keeps part (command_type x v type_id b)
  unfolding command_type
  command_type-Keeps v type_id (fields_of d) = command_struct-Keeps v type_id
  command_type-Keeps v type_id (type_of ty) = search (frame, command_struct-Keeps)

  command_returns-Keeps : (ret : Option SchemaType) → Keeps part (command_returns x ret)
  unfolding command_returns
  command_returns-Keeps none = search frame
  command_returns-Keeps (some ret) = search frame

  command_impl-Keeps :
      (command_trait : String) (v : Command) (type_id : String)
      → Keeps part (command_impl x command_trait v type_id)
  unfolding command_impl
  command_impl-Keeps command_trait v type_id = search (frame, command_returns-Keeps)

  pub process_command-Keeps : (v : Command) → Keeps part (process_command x v)
  unfolding process_command
  process_command-Keeps v = search (frame, command_type-Keeps, command_impl-Keeps)

  alternate_field-Keeps : (v : Value) → Keeps part (alternate_field x v)
  unfolding alternate_field
  alternate_field-Keeps v = search frame

  pub process_alternate-Keeps : (v : Alternate) → Keeps part (process_alternate x v)
  unfolding process_alternate
  process_alternate-Keeps v = search (frame, alternate_field-Keeps)

  enum_variant-Keeps : (item : SpecName) → Keeps part (enum_variant x item)
  unfolding enum_variant
  enum_variant-Keeps item = search frame

  enum_constant-Keeps :
      (type_id : String) (item : SpecName) → Keeps part (enum_constant x type_id item)
  unfolding enum_constant
  enum_constant-Keeps type_id item = search frame

  pub write_enum-Keeps : (v : Enum) → Keeps part (write_enum x v)
  unfolding write_enum
  write_enum-Keeps v = search (frame, enum_variant-Keeps, enum_constant-Keeps) depth 12

  transparent-Keeps : (b : DataOrType) → Keeps part (transparent x b)
  unfolding transparent
  transparent-Keeps (fields_of d) = search frame
  transparent-Keeps (type_of ty) = search frame

  event_body-Keeps : (v : Event) (b : DataOrType) → Keeps part (event_body x v b)
  unfolding event_body
  event_body-Keeps v (fields_of d) = search (frame, write_field-Keeps)
  event_body-Keeps v (type_of ty) = search (frame, write_field-Keeps)

  pub write_event-Keeps : (v : Event) → Keeps part (write_event x v)
  unfolding write_event
  write_event-Keeps v = search (frame, transparent-Keeps, event_body-Keeps) depth 9

  union_variant-Keeps : (v : Value) → Keeps part (union_variant x v)
  unfolding union_variant
  union_variant-Keeps v = search frame

  pub process_union-Keeps : (v : Union) → Keeps part (process_union x v)
  unfolding process_union
  process_union-Keeps v = search (frame, union_variant-Keeps)

-- The name that an entry adds to those that are due.
abbrev pub due : Spec → List String
due (Spec.include i) = i.include ∷ []
due _ = []

module _ {W : Type 0} (x : Output W) where
  process_enum-Keeps : (v : Enum) → Keeps files (process_enum x v)
  unfolding process_enum
  process_enum-Keeps v =
      >>=-Keeps {k = λ done. insert_enum v} (write_enum-Keeps files-IsApart x v)
        (λ done. record { keeps = λ c. refl })

  process_event-Keeps : (v : Event) → Keeps files (process_event x v)
  unfolding process_event
  process_event-Keeps v =
      >>=-Keeps {k = λ done. push_event v} (write_event-Keeps files-IsApart x v)
        (λ done. record { keeps = λ c. refl })

  Keeps-files :
      {g : Gen W (Unit {0})}
      → Keeps files g
      → (c : Context W) → ((g c).0.includes ≡ c.includes ++ []) × ((g c).0.included ≡ c.included)
  Keeps-files k c =
      (ap (λ p. p.0) (k.keeps c) ∙ sym (append-nil c.includes), ap (λ p. p.1) (k.keeps c))

  pub process-due :
      (item : Spec) (c : Context W)
      → ((process x item c).0.includes ≡ c.includes ++ due item)
        × ((process x item c).0.included ≡ c.included)
  unfolding process
  process-due (Spec.include i) c = (refl, refl)
  process-due (Spec.command v) c = Keeps-files (process_command-Keeps files-IsApart x v) c
  process-due (Spec.struct v) c = (sym (append-nil c.includes), refl)
  process-due (Spec.alternate v) c = Keeps-files (process_alternate-Keeps files-IsApart x v) c
  process-due (Spec.enum v) c = Keeps-files (process_enum-Keeps v) c
  process-due (Spec.event v) c = Keeps-files (process_event-Keeps v) c
  process-due (Spec.union v) c = Keeps-files (process_union-Keeps files-IsApart x v) c
  process-due (Spec.combined_union v) c = (sym (append-nil c.includes), refl)
  process-due (Spec.pragma_whitelist p) c = (sym (append-nil c.includes), refl)
  process-due (Spec.pragma_exceptions p) c = (sym (append-nil c.includes), refl)
  process-due (Spec.pragma_doc_required p) c = (sym (append-nil c.includes), refl)
