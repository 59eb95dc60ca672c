-- ===== src/Spec/Base64.antt =====
-- spec/src/lib.rs, modules `base64` and `base64_opt`: fields of bytes that travel as base64 text.
-- The codec is the `base64` crate's, so `encode` and `decode` are parameters.
use qapi_rs.Prelude.{
  ℕ, String, ◌≡◌, refl, Option, none, some, List, Outcome, ok, err, panic, map_ok, map_err,
}

-- `base64::DecodeError`, with the arguments that the program reads.
pub data DecodeError : Type 0 where
  invalid_byte invalid_padding invalid_last_symbol : DecodeError
  invalid_length : ℕ → DecodeError

-- The two calls of `serde::de::Error` that `de_err` makes.
pub data DeError : Type 0 where
  invalid_value : String → String → DeError
  invalid_length : ℕ → String → DeError
  custom : String → DeError

de_err : String → DecodeError → DeError
de_err str DecodeError.invalid_byte = invalid_value str "base64"
de_err str DecodeError.invalid_padding = invalid_value str "base64"
de_err str (DecodeError.invalid_length len) = invalid_length len "valid base64 length"
de_err str DecodeError.invalid_last_symbol = invalid_value str "truncated or corrupted base64"

module _ (encode : List ℕ → String) (decode : String → Outcome DecodeError (List ℕ)) where
  -- `base64::serialize`, up to the text that is handed to the serializer.
  abbrev serialize : List ℕ → String
  serialize bytes = encode bytes

  -- `base64::deserialize`, from the text that the deserializer gives, or its error.
  pub deserialize : Outcome DeError String → Outcome DeError (List ℕ)
  unfolding de_err
  deserialize (ok str) = map_err (de_err str) (decode str)
  deserialize (err e) = err e
  deserialize panic = panic

  -- `base64_opt::serialize`: `expect` panics on `None`.
  abbrev serialize_opt : Option (List ℕ) → Outcome DeError String
  serialize_opt (some bytes) = ok (serialize bytes)
  serialize_opt none = panic

  -- `base64_opt::deserialize`
  pub deserialize_opt : Outcome DeError (Option String) → Outcome DeError (Option (List ℕ))
  unfolding de_err
  deserialize_opt (ok (some str)) = map_err (de_err str) (map_ok some (decode str))
  deserialize_opt (ok none) = ok none
  deserialize_opt (err e) = err e
  deserialize_opt panic = panic

  map_err-map_ok :
      {A B E F : Type 0} (f : E → F) (g : A → B) (r : Outcome E A)
      → map_err f (map_ok g r) ≡ map_ok g (map_err f r)
  map_err-map_ok f g (ok a) = refl
  map_err-map_ok f g (err e) = refl
  map_err-map_ok f g panic = refl

  -- An optional field of bytes that is present is read exactly as a plain one is, its errors and
  -- those of the deserializer included.
  deserialize_opt-map_ok :
      (read : Outcome DeError String)
      → deserialize_opt (map_ok some read) ≡ map_ok some (deserialize read)
  unfolding deserialize deserialize_opt
  deserialize_opt-map_ok (ok str) = map_err-map_ok (de_err str) some (decode str)
  deserialize_opt-map_ok (err e) = refl
  deserialize_opt-map_ok panic = refl
