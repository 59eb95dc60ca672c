-- ===== src/Spec/ErrorSerde.antt =====
-- spec/src/lib.rs, `error_serde`: an error is written and read through structs of its own, in
-- which its class and description stand below a key. What serde derives for those is a parameter.
use qapi_rs.Prelude.{◌≡◌, ap, String, Option, Outcome, ok, map_ok}
use qapi_rs.Spec.{ErrorClass, Error}

record ErrorValue : Type 0 where
  class : ErrorClass
  desc : String

record QapiError (Any : Type 0) : Type 0 where
  error : ErrorValue
  id : Option Any

module _ {Any : Type 0} where
  -- `QapiErrorSer` has the fields of `QapiError`, borrowed.
  abbrev borrowed : Error Any → QapiError Any
  borrowed e = record { error = record { class = e.class; desc = e.desc }; id = e.id }

  abbrev owned : QapiError Any → Error Any
  owned e = record { class = e.error.class; desc = e.error.desc; id = e.id }

  -- `Serialize for Error` and `Deserialize for Error`
  serialize : {S : Type 0} → (QapiError Any → S) → Error Any → S
  serialize derived e = derived (borrowed e)

  deserialize : {D E : Type 0} → (D → Outcome E (QapiError Any)) → D → Outcome E (Error Any)
  deserialize derived d = map_ok owned (derived d)

  -- Where the derived reader gives back what the derived writer has written, an error is read back
  -- as it was.
  deserialize-serialize :
      {D E : Type 0} (write : QapiError Any → D) (read : D → Outcome E (QapiError Any))
      → ((e : QapiError Any) → read (write e) ≡ ok e)
      → (e : Error Any) → deserialize read (serialize write e) ≡ ok e
  unfolding serialize deserialize
  deserialize-serialize write read back e = ap (map_ok owned) (back (borrowed e))
