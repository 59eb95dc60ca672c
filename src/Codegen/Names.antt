-- ===== src/Codegen/Names.antt =====
-- `identifier` of codegen/src/lib.rs against what no identifier of Rust may be.
use Prim.Native.Char.{code}
use Prim.Native.String.{◌++◌ as str_append}
use text.Mathlib.TextLemmas.{nil-append, cons-append}
use qapi_rs.Prelude.{
  ℕ, ◌≡◌, refl, ap, sym, subst, ◌∙◌, ◌⊎◌, inl, inr, String, Bool, true, false, ◌||◌, some, List, [],
  ◌∷◌, any, All, arith, ◌==◌, Bool-cases, if_true, if_false, some_injective,
}
use qapi_rs.Prelude.Text.{str_eq, eq_iff, concat}
use qapi_rs.Codegen.{
  reserved, is_reserved, replace_dashes, is_digit, starts_with_digit, by_first, identifier,
}

-- A text that has the character.
pub has : ℕ → String → Bool
has d String.[] = false
has d (String.◌∷◌ c s) = (code c == d) || has d s

has-append : (d : ℕ) (s t : String) → has d (str_append s t) ≡ has d s || has d t
unfolding has
has-append d String.[] t = rw (nil-append t)
has-append d (String.◌∷◌ c s) t = rw (cons-append c s t) (ground (arith, has-append d s t))

-- A word of the list has what none of the list has.
any-has :
    (d : ℕ) (s : String) (words : List String)
    → All (λ w. has d w ≡ false) words
    → any (str_eq s) words ≡ true
    → has d s ≡ false
any-has d s [] a h = cc
any-has d s (w ∷ ws) a h = elim (Bool-cases (str_eq s w)) [
  | inl e ↦ subst (λ (t : String). has d t ≡ false) (sym ((eq_iff s w).0 e)) a.0
  | inr e ↦ any-has d s ws a.1 (ground (arith, e, h))
]

no_underscores : All (λ w. has b'_' w ≡ false) reserved
unfolding has
no_underscores = ground arith

no_dashes : All (λ w. has b'-' w ≡ false) reserved
unfolding has
no_dashes = ground arith

has-is_reserved : (s : String) → has b'_' s ≡ true → is_reserved s ≡ false
unfolding is_reserved
has-is_reserved s h = elim (Bool-cases (is_reserved s)) [
  | inl e ↦ cc (h, any-has b'_' s reserved no_underscores e)
  | inr e ↦ e
]

-- A name without dashes stays; with one it gets an underscore.
replace_dashes-cases : (s : String) → (has b'_' (replace_dashes s) ≡ true) ⊎ (replace_dashes s ≡ s)
unfolding has replace_dashes
replace_dashes-cases String.[] = inr refl
replace_dashes-cases (String.◌∷◌ c s) = elim (Bool-cases (code c == b'-')) [
  | inl e ↦ inl (rw e)
  | inr e ↦ elim (replace_dashes-cases s) [
    | inl h ↦ inl (ground (arith, h, e))
    | inr h ↦ inr (rw e (ap (String.◌∷◌ c) h))
  ]
]

has-replace_dashes : (s : String) → has b'-' (replace_dashes s) ≡ false
unfolding has replace_dashes
has-replace_dashes String.[] = refl
has-replace_dashes (String.◌∷◌ c s) = elim (Bool-cases (code c == b'-')) [
  | inl e ↦ rw e (has-replace_dashes s)
  | inr e ↦ rw e (ground (arith, e, has-replace_dashes s))
]

-- The three ways in which a name becomes an identifier.
data Made (id : String) (s : String) : Type 0 where
  renamed : is_reserved id ≡ true → concat (id ∷ "_" ∷ []) ≡ s → Made id s
  prefixed : starts_with_digit id ≡ true → has b'_' s ≡ true → Made id s
  replaced : is_reserved id ≡ false → replace_dashes id ≡ s → Made id s

by_first-Made : (id s : String) → is_reserved id ≡ false → by_first id ≡ some s → Made id s
unfolding by_first
by_first-Made String.[] s h e = cc
by_first-Made (String.◌∷◌ c cs) s h e = elim (Bool-cases (is_digit (code c))) [
  | inl d ↦ prefixed d (
      subst (λ (t : String). has b'_' t ≡ true) (some_injective (sym (if_true _ _ d) ∙ e))
        (unfold has in refl))
  | inr d ↦ replaced h (some_injective (sym (if_false _ _ d) ∙ e))
]

identifier-Made : (id s : String) → identifier id ≡ some s → Made id s
unfolding identifier
identifier-Made id s e = elim (Bool-cases (is_reserved id)) [
  | inl h ↦ renamed h (some_injective (sym (if_true _ _ h) ∙ e))
  | inr h ↦ by_first-Made id s h (sym (if_false _ _ h) ∙ e)
]

has-renamed : (d : ℕ) (id : String) → has d (concat (id ∷ "_" ∷ [])) ≡ has d id || (b'_' == d)
unfolding has
has-renamed d id = has-append d id "_" ∙ ground arith

Made-not_reserved : (id s : String) → Made id s → is_reserved s ≡ false
Made-not_reserved id s (renamed h e) =
    has-is_reserved s
      (subst (λ (t : String). has b'_' t ≡ true) e (rw (has-renamed b'_' id) (ground arith)))
Made-not_reserved id s (prefixed d h) = has-is_reserved s h
Made-not_reserved id s (replaced h e) = elim (replace_dashes-cases id) [
  | inl u ↦ has-is_reserved s (subst (λ (t : String). has b'_' t ≡ true) e u)
  | inr same ↦ subst (λ (t : String). is_reserved t ≡ false) (sym same ∙ e) h
]

Made-no_dash : (id s : String) → starts_with_digit id ≡ false → Made id s → has b'-' s ≡ false
unfolding is_reserved
Made-no_dash id s n (renamed h e) =
    subst (λ (t : String). has b'-' t ≡ false) e
      (rw (has-renamed b'-' id, any-has b'-' id reserved no_dashes h))
Made-no_dash id s n (prefixed d h) = cc
Made-no_dash id s n (replaced h e) =
    subst (λ (t : String). has b'-' t ≡ false) e (has-replace_dashes id)

-- Whatever name an entry of a schema has, the identifier made from it is none of the words that
-- the generator takes for reserved; and it has no dash, unless the name starts with a digit.
pub identifier_usable :
    (id s : String)
    → identifier id ≡ some s
    → (is_reserved s ≡ false) × ((starts_with_digit id ≡ true) ⊎ (has b'-' s ≡ false))
identifier_usable id s e =
    let made = identifier-Made id s e in
    (
      Made-not_reserved id s made,
      elim (Bool-cases (starts_with_digit id)) [
        | inl d ↦ inl d
        | inr n ↦ inr (Made-no_dash id s n made)
      ],
    )
