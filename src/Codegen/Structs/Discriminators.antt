-- ===== src/Codegen/Structs/Discriminators.antt =====
-- The first loop of `process_structs` of codegen/src/lib.rs: which fields it takes off the structs.
use qapi_rs.Prelude.{
  ◌≡◌, ◌≢◌, List, subst, refl, sym, ◌∙◌, ap, String, Option, none, some, [], ◌∷◌, Outcome, ok,
  Bool-cases, inl, inr,
}
use qapi_rs.Prelude.Text.{str_eq, eq_iff}
use qapi_rs.Spec.{IoError}
use qapi_rs.Schema.Types.{Struct, Value}
use qapi_rs.Codegen.Map.{BTreeMap, get, update}
use qapi_rs.Codegen.Map.Lookup.{map_option, get-update}
use qapi_rs.Codegen.Frame.{each-ok}
use qapi_rs.Codegen.Context.{Context, each, or_not_found, modify, continue_with}
use qapi_rs.Codegen.Structs.{without, without_field, not_found, drop_discriminator}

-- A struct's discriminator, if one is noted for it, is taken off.
abbrev taken_off : Option String → Option Struct → Option Struct
taken_off none o = o
taken_off (some discrim) o = map_option (without_field discrim) o

-- No key is twice in the map.
abbrev IsMap : {V : Type 0} → BTreeMap V → Type 0
IsMap [] = Unit
IsMap ((k, v) ∷ m) = (get k m ≡ none) × IsMap m

taken_off-first :
    (k id discrim : String) (m : BTreeMap String) (types : BTreeMap Struct)
    → get k m ≡ none
    → taken_off (get id m) (get id (update k (without_field discrim) types))
      ≡ taken_off (get id ((k, discrim) ∷ m)) (get id types)
unfolding get
taken_off-first k id discrim m types h = elim (Bool-cases (str_eq k id)) [
  | inl a ↦
      let same = (eq_iff k id).0 a in
      rw (get-update id k (without_field discrim) types, a, ← same, h) refl
  | inr a ↦ rw (get-update id k (without_field discrim) types, a) refl
]

module _ {W : Type 0} where
  found-types :
      (id discrim : String) (o : Option Struct) (c c' : Context W)
      → continue_with
          (λ found. modify (λ d. record d { types = update id (without_field discrim) d.types }))
          (or_not_found (not_found id) o c)
        ≡ (c', ok tt)
      → c'.types ≡ update id (without_field discrim) c.types
  unfolding or_not_found
  found-types id discrim none c c' e = cc
  found-types id discrim (some v) c c' e =
      ap (λ (t : Context W × Outcome IoError (Unit {0})). t.0.types) (sym e)

  drop_discriminator-types :
      (id discrim : String) (c c' : Context W)
      → drop_discriminator (id, discrim) c ≡ (c', ok tt)
      → c'.types ≡ update id (without_field discrim) c.types
  unfolding drop_discriminator
  drop_discriminator-types id discrim c c' e = found-types id discrim (get id c.types) c c' e

  -- The loop, by the field filter of the code.
  each-taken_off :
      (noted : BTreeMap String) (c c' : Context W)
      → IsMap noted
      → each drop_discriminator noted c ≡ (c', ok tt)
      → (id : String) → get id c'.types ≡ taken_off (get id noted) (get id c.types)
  unfolding each get
  each-taken_off [] c c' u e id =
      ap (λ (t : Context W × Outcome IoError (Unit {0})). get id t.0.types) (sym e)
  each-taken_off ((k, discrim) ∷ m) c c' (h, u) e id =
      let (first, rest) =
        each-ok drop_discriminator (k, discrim) m (drop_discriminator (k, discrim) c) c' e in
      let d = (drop_discriminator (k, discrim) c).0 in
      each-taken_off m d c' u rest id
      ∙ ap (λ (l : BTreeMap Struct). taken_off (get id m) (get id l))
          (drop_discriminator-types k discrim c d first)
      ∙ taken_off-first k id discrim m c.types h

-- The second list is the first without the fields of the name, in the same order.
pub data Removed (discrim : String) : List Value → List Value → Type 0 where
  done : Removed discrim [] []
  gone :
      {f : Value} {fs gs : List Value}
      → f.name ≡ discrim
      → Removed discrim fs gs
      → Removed discrim (f ∷ fs) gs
  stays :
      {f : Value} {fs gs : List Value}
      → f.name ≢ discrim
      → Removed discrim fs gs
      → Removed discrim (f ∷ fs) (f ∷ gs)

without-Removed : (discrim : String) (fs : List Value) → Removed discrim fs (without discrim fs)
unfolding without
without-Removed discrim [] = done
without-Removed discrim (f ∷ fs) = elim (Bool-cases (str_eq f.name discrim)) [
  | inl same ↦ rw same (gone ((eq_iff f.name discrim).0 same) (without-Removed discrim fs))
  | inr other ↦
      rw other (stays (λ e. cc (other, (eq_iff f.name discrim).1 e)) (without-Removed discrim fs))
]

-- What becomes of a struct, by the discriminator that is noted for it: nothing where there is
-- none, and otherwise it is as it was but for the fields of that name, which are gone.
abbrev pub Loses : Option String → Option Struct → Option Struct → Type 0
Loses none before after = after ≡ before
Loses (some discrim) none after = after ≡ none
Loses (some discrim) (some v) after =
    (gs : List Value) × Removed discrim v.body.fields gs
    × (after ≡ some (record v { body = record { fields = gs } }))

taken_off-Loses : (noted : Option String) (o : Option Struct) → Loses noted o (taken_off noted o)
unfolding without_field
taken_off-Loses none o = refl
taken_off-Loses (some discrim) none = refl
taken_off-Loses (some discrim) (some v) =
    (without discrim v.body.fields, without-Removed discrim v.body.fields, refl)

-- The discriminators that unions have noted, one for each struct: when the loop over them
-- succeeds, each of those structs has lost the fields of its discriminator's name and
-- kept all others, in their order, and every other struct is as it was.
pub discriminators_taken_off :
    {W : Type 0} (noted : BTreeMap String) (c c' : Context W)
    → IsMap noted
    → each drop_discriminator noted c ≡ (c', ok tt)
    → (id : String) → Loses (get id noted) (get id c.types) (get id c'.types)
discriminators_taken_off noted c c' u e id =
    subst (Loses (get id noted) (get id c.types)) (sym (each-taken_off noted c c' u e id))
      (taken_off-Loses (get id noted) (get id c.types))
