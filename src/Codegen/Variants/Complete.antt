-- ===== src/Codegen/Variants/Complete.antt =====
-- The variants that codegen/src/lib.rs makes of a union against the values of its discriminator.
use qapi_rs.Prelude.{
  ℕ, suc, ◌+◌, ◌≤◌, ◌≡◌, refl, sym, ◌∙◌, ap, subst, String, Bool, true, false, Option, none, some,
  List, [], ◌∷◌, ◌++◌, any, arith, Bool-cases, if◌then◌else◌, some_injective, if_true, if_false,
  inl, inr,
}
use qapi_rs.Prelude.Text.{str_eq, eq_iff}
use qapi_rs.Schema.Types.{Value, SpecName, spec_name}
use qapi_rs.Codegen.Variants.{
  find_name, is_named, field_variants, known_variant, other_variants, with_others, variants_of,
}

-- How many elements pass a test.
abbrev pub count : {A : Type 0} → (A → Bool) → List A → ℕ
count p [] = 0
count p (a ∷ rest) = if p a then suc (count p rest) else count p rest

count-append :
    {A : Type 0} (p : A → Bool) (as_ bs : List A) → count p (as_ ++ bs) ≡ count p as_ + count p bs
count-append p [] bs = omega arith
count-append p (a ∷ rest) bs = ground (arith, count-append p rest bs)

any-count : {A : Type 0} (p : A → Bool) (l : List A) → any p l ≡ false → count p l ≡ 0
any-count p [] h = refl
any-count p (a ∷ rest) h = ground (arith, any-count p rest, h)

count-any : {A : Type 0} (p : A → Bool) (l : List A) → any p l ≡ true → 1 ≤ count p l
count-any p [] h = cc
count-any p (a ∷ rest) h = ground (arith, count-any p rest, h)

-- A value of an enum, and a field of a union, of that name.
abbrev pub names_value : String → SpecName → Bool
names_value n v = str_eq (spec_name v) n

abbrev names_field : String → Value → Bool
names_field n f = str_eq f.name n

find_name-names :
    (name : String) (names : List SpecName) (v : SpecName)
    → find_name name names ≡ some v
    → (spec_name v ≡ name) × (any (names_value name) names ≡ true)
unfolding find_name
find_name-names name [] v e = cc
find_name-names name (w ∷ ws) v e = elim (Bool-cases (str_eq name (spec_name w))) [
  | inl a ↦
      let same : w ≡ v = some_injective (sym (if_true _ _ a) ∙ e) in
      let named = (eq_iff name (spec_name w)).0 a in
      (sym (ap spec_name same) ∙ sym named, ground (arith, named, eq_iff (spec_name w) name))
  | inr a ↦
      let (named, among) = find_name-names name ws v (sym (if_false _ _ a) ∙ e) in
      (named, ground (arith, among))
]

-- The variants of the fields have the fields' names, all of them values.
record Known (names : List SpecName) (fields : List Value) (known : List (SpecName × Option Value))
    : Type 0 where
  counts : (n : String) → count (is_named n) known ≡ count (names_field n) fields
  values : (n : String) → any (names_field n) fields ≡ true → any (names_value n) names ≡ true

known_variant-some :
    (f : Value) (o : Option SpecName) (rest : Option (List (SpecName × Option Value)))
    (known : List (SpecName × Option Value))
    → known_variant f o rest ≡ some known
    → (v : SpecName) × (ks : List (SpecName × Option Value)) × (o ≡ some v)
      × (rest ≡ some ks)
      × ((v, some f) ∷ ks ≡ known)
known_variant-some f none rest known e = cc
known_variant-some f (some v) none known e = cc
known_variant-some f (some v) (some ks) known e = (v, ks, refl, refl, some_injective e)

field_variants-Known :
    (names : List SpecName) (fields : List Value) (known : List (SpecName × Option Value))
    → field_variants names fields ≡ some known
    → Known names fields known
unfolding field_variants
field_variants-Known names [] known e =
    rw (← some_injective e) (record { counts = λ n. refl; values = λ n h. cc })
field_variants-Known names (f ∷ fs) known e =
    let (v, ks, found, rest, same) =
      known_variant-some f (find_name f.name names) (field_variants names fs) known e in
    let k = field_variants-Known names fs ks rest in
    let (named, among) = find_name-names f.name names v found in
    rw (← same) (record {
      counts = λ n. rw named (ground (arith, k.counts n));
      values = λ n h. elim (Bool-cases (str_eq f.name n)) [
        | inl a ↦ rw (← (eq_iff f.name n).0 a) among
        | inr a ↦ k.values n (ground (arith, a, h))
      ];
    })

-- The count of a name among the other values is none, if the name is known.
abbrev Others : List (SpecName × Option Value) → List SpecName → String → Type 0
Others known names n =
    count (is_named n) (other_variants known names)
    ≡ (if any (is_named n) known then 0 else count (names_value n) names)

other_variants-first :
    (known : List (SpecName × Option Value)) (v : SpecName) (vs : List SpecName)
    → Others known vs (spec_name v)
    → Others known (v ∷ vs) (spec_name v)
unfolding other_variants
other_variants-first known v vs h = elim (Bool-cases (any (is_named (spec_name v)) known)) [
  | inl a ↦ rw a (ground (arith, a, h))
  | inr a ↦ rw a (ground (arith, a, h, eq_iff (spec_name v) (spec_name v)))
]

other_variants-count :
    (known : List (SpecName × Option Value)) (names : List SpecName) (n : String)
    → Others known names n
unfolding other_variants
other_variants-count known [] n = ground arith
other_variants-count known (v ∷ vs) n = elim (Bool-cases (str_eq (spec_name v) n)) [
  | inl a ↦
      subst (λ (m : String). Others known (v ∷ vs) m) ((eq_iff (spec_name v) n).0 a)
        (other_variants-first known v vs (other_variants-count known vs (spec_name v)))
  | inr a ↦ elim (Bool-cases (any (is_named (spec_name v)) known)) [
    | inl b ↦ rw (a, b) (other_variants-count known vs n)
    | inr b ↦ rw (a, b) (rw a (other_variants-count known vs n))
  ]
]

with_others-some :
    (names : List SpecName) (o : Option (List (SpecName × Option Value)))
    (variants : List (SpecName × Option Value))
    → with_others names o ≡ some variants
    → (known : List (SpecName × Option Value)) × (o ≡ some known)
      × (known ++ other_variants known names ≡ variants)
with_others-some names none variants e = cc
with_others-some names (some known) variants e = (known, refl, some_injective e)

-- If a union has at most one field of each name, and the enum of its discriminator no value
-- twice, then, whenever its variants are found, they are the values of that enum, each as many
-- times as the enum has it: no value is left out, none is added and none is twice.
pub variants_complete :
    (names : List SpecName) (fields : List Value) (variants : List (SpecName × Option Value))
    → ((n : String) → count (names_value n) names ≤ 1)
    → ((n : String) → count (names_field n) fields ≤ 1)
    → variants_of names fields ≡ some variants
    → (n : String) → count (is_named n) variants ≡ count (names_value n) names
unfolding variants_of
variants_complete names fields variants once single e n =
    let (known, found, same) = with_others-some names (field_variants names fields) variants e in
    let k = field_variants-Known names fields known found in
    rw
      (
        ← same,
        count-append (is_named n) known (other_variants known names),
        other_variants-count known names n,
      )
      (elim (Bool-cases (any (is_named n) known)) [
        | inl a ↦ rw a (
            ground (
              arith,
              count-any (is_named n) known a,
              k.counts n,
              single n,
              once n,
              any-count (names_field n) fields,
              k.values n,
              count-any (names_value n) names,
            ))
        | inr a ↦ rw a (ground (arith, any-count (is_named n) known a))
      ])
