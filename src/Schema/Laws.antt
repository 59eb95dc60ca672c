-- ===== src/Schema/Laws.antt =====
-- What the readers and tests of parser/src/lib.rs, `mod spec`, promise.
use Prim.Native.Char.{Char, code}
use text.Mathlib.TextEquality.{Char-path}
use qapi_rs.Prelude.{
  ℕ, ◌≡◌, ◌↔◌, refl, ap, sym, ◌∙◌, String, true, none, some, List, [], ◌∷◌, map, Outcome, ok, err,
  panic, map_err, >>=-eq-ok, ok_injective, some_injective, arith, if◌then◌else◌, ◌==◌, ==_iff,
  Bool-cases, inl, inr,
}
use qapi_rs.Schema.Types.{
  SchemaType, Value, Data, Struct, DataOrType, fields_of, type_of, new_value, newtype, is_empty,
  without_base, only,
}
use qapi_rs.Schema.Read.{visit_seq, read_data, read_fields}

-- A field's name as the schema spells it.
abbrev star : Char
star = "*"

abbrev pub spelled : Value → String
spelled v = if v.optional then String.◌∷◌ star v.name else v.name

spelled-new_value : (raw : String) (ty : SchemaType) → spelled (new_value raw ty) ≡ raw
unfolding new_value
spelled-new_value String.[] ty = refl
spelled-new_value (String.◌∷◌ c s) ty = elim (Bool-cases (code c == b'*')) [
  | inl e ↦
      rw e (ap (λ (d : Char). String.◌∷◌ d s) (Char-path star c (sym ((==_iff (code c) b'*').0 e))))
  | inr e ↦ rw e
]

abbrev keys : {J : Type 0} → List (String × J) → List String
keys [] = []
keys ((n, j) ∷ fields) = n ∷ keys fields

module _ {J E F : Type 0} (read_type : J → Outcome E SchemaType) (custom : E → F) where
  read_fields-keys :
      (fields : List (String × J)) (vs : List Value)
      → read_fields read_type custom fields ≡ ok vs
      → map spelled vs ≡ keys fields
  unfolding read_fields
  read_fields-keys [] vs h = ground arith
  read_fields-keys ((n, j) ∷ fields) vs h =
      let (ty, h1, h2) = >>=-eq-ok (map_err custom (read_type j)) _ h in
      let (rest, h3, h4) = >>=-eq-ok (read_fields read_type custom fields) _ h2 in
      ap (map spelled) (sym (ok_injective h4))
      ∙ cc (spelled-new_value n ty, read_fields-keys fields rest h3)

  -- Where the fields of a schema entry can be read, no name is lost: a star that marks a field as
  -- optional is taken off its name and can be put back, in the order of the map.
  pub read_data-keys :
      (fields : List (String × J)) (d : Data)
      → read_data read_type custom fields ≡ ok d
      → map spelled d.fields ≡ keys fields
  unfolding read_data
  read_data-keys fields d h =
      let (vs, h1, h2) = >>=-eq-ok (read_fields read_type custom fields) _ h in
      ap (λ (e : Data). map spelled e.fields) (sym (ok_injective h2))
      ∙ read_fields-keys fields vs h1

only-eq : (fs : List Value) (v : Value) → only fs ≡ some v → fs ≡ v ∷ []
unfolding only
only-eq [] v h = cc
only-eq (f ∷ []) v h = ap (λ (x : Value). x ∷ []) (some_injective h)
only-eq (f ∷ g ∷ fs) v h = cc

-- The body of a struct that is only `v`, with no fields of a base.
abbrev IsOnly : DataOrType → List Value → Value → Type 0
IsOnly base fs v = (is_empty base ≡ true) × (fs ≡ v ∷ [])

without_base-IsOnly :
    (base : DataOrType) (s : Struct) (v : Value)
    → without_base base s ≡ some v
    → IsOnly base s.body.fields v
unfolding without_base
without_base-IsOnly (fields_of d) s v h = ground (arith, only-eq s.body.fields v)
without_base-IsOnly (type_of ty) s v h = cc

without_base-of : (s : Struct) (v : Value) → IsOnly s.base s.body.fields v → newtype s ≡ some v
unfolding newtype only
without_base-of s v h = ground (arith, h)

-- A struct is a newtype around a field exactly when it has no base type, no field of a base,
-- and that one field of its own.
newtype_iff :
    (s : Struct) (v : Value)
    → (newtype s ≡ some v) ↔ ((is_empty s.base ≡ true) × (s.body.fields ≡ v ∷ []))
unfolding newtype
newtype_iff s v = (without_base-IsOnly s.base s v, without_base-of s v)

-- The array form of a type is one string in brackets: nothing else in brackets is read.
visit_seq_iff :
    {E : Type 0} (invalid_length : ℕ → String → E) (elements : List (Outcome E String))
    (ty : SchemaType)
    → (visit_seq invalid_length elements ≡ ok ty) ↔ (
        (v : String) × (elements ≡ ok v ∷ [])
        × (ty ≡ record { name = v; is_array = true; conditional = none; features = [] }))
unfolding visit_seq
visit_seq_iff invalid_length [] ty = ((λ h. cc), (λ h. cc (h.1)))
visit_seq_iff invalid_length (ok v ∷ []) ty =
    ((λ h. (v, refl, sym (ok_injective h))), (λ h. cc (h.1, h.2)))
visit_seq_iff invalid_length (err e ∷ rs) ty = ((λ h. cc), (λ h. cc (h.1)))
visit_seq_iff invalid_length (panic ∷ rs) ty = ((λ h. cc), (λ h. cc (h.1)))
visit_seq_iff invalid_length (ok v ∷ ok w ∷ rs) ty = ((λ h. cc), (λ h. cc (h.1)))
visit_seq_iff invalid_length (ok v ∷ err e ∷ rs) ty = ((λ h. cc), (λ h. cc (h.1)))
visit_seq_iff invalid_length (ok v ∷ panic ∷ rs) ty = ((λ h. cc), (λ h. cc (h.1)))
