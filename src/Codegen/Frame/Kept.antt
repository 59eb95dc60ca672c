-- ===== src/Codegen/Frame/Kept.antt =====
-- What the last three passes of codegen/src/lib.rs leave alone: the files that have been read.
use qapi_rs.Prelude.{String, Bool, Option, none, some, List}
use qapi_rs.Schema.Types.{Value, DataOrType, fields_of, type_of, Struct, SpecName, CombinedUnion}
use qapi_rs.Codegen.Context.{Output}
use qapi_rs.Codegen.Frame.{Keeps, files, files_frame, modify-Keeps}
use qapi_rs.Codegen.Frame.Untouched.{write_field-Keeps}
use qapi_rs.Codegen.Structs.{
  drop_discriminator, base_fields, default_field, default_fields, as_ref_impl, from_impl,
  wrapper_impl, write_struct, process_structs,
}
use qapi_rs.Codegen.Variants.{Base, note_discriminator, choose_base}
use qapi_rs.Codegen.Unions.{
  checked, variant_body, write_variant, write_base, write_arm, from_wrapped, from_variant,
  conversion, write_union, process_unions,
}
use qapi_rs.Codegen.Events.{process_events}

drop_discriminator-Keeps :
    {W : Type 0} (k : String × String) → Keeps (files {W = W}) (drop_discriminator k)
unfolding drop_discriminator
drop_discriminator-Keeps (id, discrim) = search (files_frame, modify-Keeps)

note_discriminator-Keeps :
    {W : Type 0} (discrim id : String) (f : Value)
    → Keeps (files {W = W}) (note_discriminator discrim id f)
unfolding note_discriminator
note_discriminator-Keeps discrim id f = search (files_frame, modify-Keeps)

choose_base-Keeps :
    {W : Type 0} (discrim type_id : String) (b : DataOrType)
    → Keeps (files {W = W}) (choose_base discrim type_id b)
unfolding choose_base
choose_base-Keeps discrim type_id (fields_of d) = search files_frame
choose_base-Keeps discrim type_id (type_of ty) = search (files_frame, note_discriminator-Keeps)

module _ {W : Type 0} (x : Output W) where
  base_fields-Keeps : (v : Struct) (b : DataOrType) → Keeps files (base_fields x v b)
  unfolding base_fields
  base_fields-Keeps v (fields_of d) = search (files_frame, write_field-Keeps)
  base_fields-Keeps v (type_of ty) = search (files_frame, write_field-Keeps)

  default_fields-Keeps : (v : Struct) (o : Option Value) → Keeps files (default_fields x v o)
  unfolding default_field
  default_fields-Keeps v none = search files_frame
  default_fields-Keeps v (some f) = search files_frame

  as_ref_impl-Keeps : (s t n : String) (o : Bool) → Keeps files (as_ref_impl x s t n o)
  unfolding as_ref_impl
  as_ref_impl-Keeps s t n o = search files_frame

  from_impl-Keeps : (v : Struct) (s : String) (o : Option Value) → Keeps files (from_impl x v s o)
  unfolding from_impl
  from_impl-Keeps v s none = search files_frame
  from_impl-Keeps v s (some f) = search (files_frame, default_fields-Keeps, as_ref_impl-Keeps)

  wrapper_impl-Keeps : (s : String) (o : Option Value) → Keeps files (wrapper_impl x s o)
  unfolding wrapper_impl
  wrapper_impl-Keeps s none = search files_frame
  wrapper_impl-Keeps s (some f) = search files_frame

  write_struct-Keeps : (v : Struct) → Keeps files (write_struct x v)
  unfolding write_struct
  write_struct-Keeps v =
      search
        (files_frame, write_field-Keeps, base_fields-Keeps, from_impl-Keeps, wrapper_impl-Keeps)
        depth 9

  pub process_structs-Keeps : Keeps files (process_structs x)
  unfolding process_structs
  process_structs-Keeps = search (files_frame, drop_discriminator-Keeps, write_struct-Keeps)

  checked-Keeps : (o : Option Value) → Keeps files (checked x o)
  unfolding checked
  checked-Keeps none = search files_frame
  checked-Keeps (some v) = search files_frame

  variant_body-Keeps : (id : String) (b f : Option Value) → Keeps files (variant_body x id b f)
  unfolding variant_body
  variant_body-Keeps id (some b) (some f) = search files_frame depth 9
  variant_body-Keeps id (some b) none = search files_frame
  variant_body-Keeps id none (some f) = search files_frame
  variant_body-Keeps id none none = search files_frame

  write_variant-Keeps :
      (id : String) (b : Option Value) (v : SpecName × Option Value)
      → Keeps files (write_variant x id b v)
  unfolding write_variant
  write_variant-Keeps id b (name, v) = search (files_frame, checked-Keeps, variant_body-Keeps)

  write_base-Keeps : (id discrim : String) (b : Base) → Keeps files (write_base x id discrim b)
  unfolding write_base
  write_base-Keeps id discrim b = search (files_frame, write_field-Keeps) depth 9

  write_arm-Keeps :
      (id name : String) (v : SpecName × Option Value) → Keeps files (write_arm x id name v)
  unfolding write_arm
  write_arm-Keeps id name (v, f) = search files_frame

  from_wrapped-Keeps : (s t n : String) (o : Option Value) → Keeps files (from_wrapped x s t n o)
  unfolding from_wrapped
  from_wrapped-Keeps s t n none = search files_frame
  from_wrapped-Keeps s t n (some f) = search files_frame

  from_variant-Keeps :
      (u : CombinedUnion) (s : String) (v : Value) (n : String) (o : Option Value)
      → Keeps files (from_variant x u s v n o)
  unfolding from_variant
  from_variant-Keeps u s v n none = search (files_frame, from_wrapped-Keeps)
  from_variant-Keeps u s v n (some b) = search files_frame

  conversion-Keeps :
      (u : CombinedUnion) (s : String) (o : Option Value) (l : List String) (v : Value)
      → Keeps files (conversion x u s o l v)
  unfolding conversion
  conversion-Keeps u s o l v = search (files_frame, from_variant-Keeps)

  write_union-Keeps : (u : CombinedUnion) → Keeps files (write_union x u)
  unfolding write_union
  write_union-Keeps u =
      search
        (
          files_frame, choose_base-Keeps, write_variant-Keeps, write_base-Keeps, write_arm-Keeps,
          conversion-Keeps,
        )
        depth 20

  pub process_unions-Keeps : Keeps files (process_unions x)
  unfolding process_unions
  process_unions-Keeps = search (files_frame, write_union-Keeps)

  pub process_events-Keeps : Keeps files (process_events x)
  unfolding process_events
  process_events-Keeps = search files_frame depth 9
