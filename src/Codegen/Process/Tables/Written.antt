-- ===== src/Codegen/Process/Tables/Written.antt =====
-- What `Context::process` of codegen/src/lib.rs writes for an enumeration.
use mathlib.Core.List.{append_assoc, append-nil}
use qapi_rs.Prelude.{
  ℕ, zero, suc, ◌≡◌, refl, ap, sym, subst, ◌∙◌, String, none, some, List, [], ◌∷◌, ◌++◌, map, ok,
  arith, All, length, get_elem?,
}
use qapi_rs.Prelude.Text.{eq_iff}
use qapi_rs.Spec.Enum.{Distinct, Fresh-get_elem?, from_name, name, from_name-get_elem?}
use qapi_rs.Schema.Types
use qapi_rs.Schema.Types.{SpecName, spec_name}
use qapi_rs.Codegen.{identifier}
use qapi_rs.Codegen.Context.{Gen, ◌>>◌, ◌>>=◌, each, continue_with, ident, emit}
use qapi_rs.Codegen.Process.{write_enum, enum_variant, enum_constant, enum_name}
use qapi_rs.Codegen.Process.Tables.{
  pieces, Writes, rows, variant_row, constant_row, name_row, enum_opening, enum_end, implementation,
  names_opening, names_end, print, position, enumeration, Items, names_of, body_of, ids_of,
  declared, AreSpelled,
}

emit-Writes : (ps : List String) → Writes (emit pieces ps) ps
unfolding emit each
emit-Writes [] c = ap (λ o. (record c { out = o }, ok tt)) (sym (append-nil c.out))
emit-Writes (p ∷ ps) c =
    emit-Writes ps (record c { out = c.out ++ p ∷ [] })
    ∙ ap (λ o. (record c { out = o }, ok tt)) (append_assoc c.out (p ∷ []) ps)

then-Writes :
    (m k : Gen (List String) (Unit {0})) (ps qs : List String)
    → Writes m ps
    → Writes k qs
    → Writes (m >> k) (ps ++ qs)
then-Writes m k ps qs wm wk c =
    ap (continue_with λ done. k) (wm c)
    ∙ wk (record c { out = c.out ++ ps })
    ∙ ap (λ o. (record c { out = o }, ok tt)) (append_assoc c.out ps qs)

-- A loop over the items, whose step for an item writes the row of what the item stands for.
each-Writes :
    {A B C : Type 0} (f : B → Gen (List String) (Unit {0})) (row : C → List String)
    (of_item : A → B) (to : A → C) (items : List A)
    → All (λ a. Writes (f (of_item a)) (row (to a))) items
    → Writes (each f (map of_item items)) (rows row (map to items))
unfolding each
each-Writes f row of_item to [] a =
    λ c. ap (λ o. (record c { out = o }, ok tt)) (sym (append-nil c.out))
each-Writes f row of_item to (i ∷ items) a =
    then-Writes (f (of_item i)) (each f (map of_item items)) (row (to i)) (rows row (map to items))
      a.0 (each-Writes f row of_item to items a.1)

ident-Writes :
    (id s : String) (f : String → Gen (List String) (Unit {0})) (ps : List String)
    → identifier id ≡ some s
    → Writes (f s) ps
    → Writes (ident id >>= f) ps
unfolding ident
ident-Writes id s f ps e w c = rw e (w c)

module _ (type_id : String) where
  enum_variant-Writes :
      (items : Items)
      → AreSpelled items
      → All (λ p. Writes (enum_variant pieces p.0) (variant_row (spec_name p.0, p.1))) items
  unfolding enum_variant
  enum_variant-Writes [] a = tt
  enum_variant-Writes (p ∷ items) a = (
    ident-Writes (spec_name p.0) p.1 (λ id. emit pieces (variant_row (spec_name p.0, id))) _ a.0
        (emit-Writes (variant_row (spec_name p.0, p.1))),
    enum_variant-Writes items a.1,
  )

  enum_constant-Writes :
      (items : Items)
      → AreSpelled items
      → All (λ p. Writes (enum_constant pieces type_id p.0) (constant_row type_id p.1)) items
  unfolding enum_constant
  enum_constant-Writes [] a = tt
  enum_constant-Writes (p ∷ items) a = (
    ident-Writes (spec_name p.0) p.1 (λ id. emit pieces (constant_row type_id id)) _ a.0
        (emit-Writes (constant_row type_id p.1)),
    enum_constant-Writes items a.1,
  )

  enum_name-Writes :
      (items : Items) → All (λ p. Writes (enum_name pieces p.0) (name_row (spec_name p.0))) items
  enum_name-Writes [] = tt
  enum_name-Writes (p ∷ items) = (emit-Writes (name_row (spec_name p.0)), enum_name-Writes items)

-- The rest of `write_enum`, once its type has an identifier.
abbrev with_id : List SpecName → String → Gen (List String) (Unit {0})
with_id body type_id =
    emit pieces (enum_opening type_id)
    >> (each (enum_variant pieces) body
        >> (emit pieces enum_end
            >> (emit pieces (implementation type_id (length body))
                >> (each (enum_constant pieces type_id) body
                    >> (emit pieces names_opening
                        >> (each (enum_name pieces) body >> emit pieces names_end))))))

module _ (type_id : String) (items : Items) where
  with_id-Writes :
      AreSpelled items → Writes (with_id (body_of items) type_id) (print (declared type_id items))
  with_id-Writes a = then-Writes _ _ _ _ (emit-Writes (enum_opening type_id)) (
      then-Writes _ _ _ _
        (each-Writes (enum_variant pieces) variant_row (λ p. p.0) (λ p. (spec_name p.0, p.1)) items
          (enum_variant-Writes type_id items a))
        (then-Writes _ _ _ _ (emit-Writes enum_end) (
          then-Writes _ _ _ _ (emit-Writes (implementation type_id (length (body_of items)))) (
            then-Writes _ _ _ _
              (each-Writes (enum_constant pieces type_id) (constant_row type_id) (λ p. p.0)
                (λ p. p.1) items (enum_constant-Writes type_id items a))
              (then-Writes _ _ _ _ (emit-Writes names_opening) (
                then-Writes _ _ _ _
                  (each-Writes (enum_name pieces) name_row (λ p. p.0) (λ p. spec_name p.0) items
                    (enum_name-Writes type_id items))
                  (emit-Writes names_end)))))))

  write_enum-Writes :
      (v : Types.Enum)
      → v.body ≡ body_of items
      → identifier v.id ≡ some type_id
      → AreSpelled items
      → Writes (write_enum pieces v) (print (declared type_id items))
  unfolding write_enum
  write_enum-Writes v b e a =
      ident-Writes v.id type_id (with_id v.body) (print (declared type_id items)) e (
        subst (λ body. Writes (with_id body type_id) (print (declared type_id items))) (sym b)
          (with_id-Writes a))

-- In a list without an item twice, an item is where it stands.
position-get_elem? :
    (ids : List String) (i : ℕ) (s : String)
    → Distinct ids
    → get_elem? ids i ≡ some s
    → position s ids ≡ i
unfolding position
position-get_elem? [] i s d h = cc
position-get_elem? (t ∷ ts) zero s d h = ground (arith, eq_iff t s)
position-get_elem? (t ∷ ts) (suc i) s d h =
    ground
      (arith, eq_iff t s, Fresh-get_elem? t ts i {s = s} d.0 h, position-get_elem? ts i s d.1 h)

get_elem?-map :
    {A B : Type 0} (f : A → B) (xs : List A) (i : ℕ) (a : A)
    → get_elem? xs i ≡ some a
    → get_elem? (map f xs) i ≡ some (f a)
get_elem?-map f [] i a h = cc
get_elem?-map f (x ∷ xs) zero a h = ap (λ o. elim o [ none ↦ none | some y ↦ some (f y) ]) h
get_elem?-map f (x ∷ xs) (suc i) a h = get_elem?-map f xs i a h

variants-ids :
    (items : Items)
    → map (λ (v : String × String). v.1) (map (λ p. (spec_name p.0, p.1)) items) ≡ ids_of items
variants-ids [] = refl
variants-ids (p ∷ items) = ap (λ (ids : List String). p.1 ∷ ids) (variants-ids items)

-- For an entry whose type and names have identifiers, and no name and no identifier of which
-- stands in it twice, to a writer that takes all: what is written, and nothing else is changed,
-- is an item of Rust in which `from_name` gives for each name of the entry the variant that was
-- made of it, and `name` gives for that variant the name.
pub write_enum_tables :
    (v : Types.Enum) (type_id : String) (items : Items) (i : ℕ) (p : SpecName × String)
    → v.body ≡ body_of items
    → identifier v.id ≡ some type_id
    → AreSpelled items
    → Distinct (names_of items)
    → Distinct (ids_of items)
    → get_elem? items i ≡ some p
    → let e = enumeration (declared type_id items) in
      Writes (write_enum pieces v) (print (declared type_id items))
      × (from_name e (spec_name p.0) ≡ some p.1)
      × (name e p.1 ≡ some (spec_name p.0))
unfolding name
write_enum_tables v type_id items i p b t a distinct unlike h =
    let e = enumeration (declared type_id items) in
    let named = get_elem?-map (λ p. spec_name p.0) items i p h in
    let variant = get_elem?-map (λ p. p.1) items i p h in
    (
      write_enum-Writes type_id items v b t a,
      from_name-get_elem? e i (spec_name p.0) p.1 distinct named variant,
      ap (get_elem? (names_of items)) (
            ap (position p.1) (variants-ids items)
            ∙ position-get_elem? (ids_of items) i p.1 unlike variant)
          ∙ named,
    )
