-- ===== src/Codegen/Map/Lookup.antt =====
-- What the maps of codegen/src/lib.rs hold of a name after a change.
use qapi_rs.Prelude.{
  ◌≡◌, refl, String, false, Option, none, some, [], ◌∷◌, arith, Bool-cases, if◌then◌else◌, inl, inr,
}
use qapi_rs.Prelude.Text.{str_eq, eq_iff}
use qapi_rs.Codegen.Map.{BTreeMap, str_ltb, get, insert, update}

abbrev pub map_option : {A B : Type 0} → (A → B) → Option A → Option B
map_option f none = none
map_option f (some a) = some (f a)

pub get-update :
    {V : Type 0} (j k : String) (f : V → V) (m : BTreeMap V)
    → get j (update k f m) ≡ (if str_eq k j then map_option f (get j m) else get j m)
unfolding get update
get-update j k f [] = ground arith
get-update j k f ((i, v) ∷ m) = elim (Bool-cases (str_eq i k)) [
  | inl a ↦
      rw (a, (eq_iff i k).0 a)
        (elim (Bool-cases (str_eq k j)) [ inl b ↦ rw b refl | inr b ↦ rw b refl ])
  | inr a ↦ rw a (elim (Bool-cases (str_eq i j)) [
    | inl b ↦
        let apart : str_eq k j ≡ false = ground (arith, a, b, eq_iff i j, eq_iff k j, eq_iff i k) in
        rw (b, apart) refl
    | inr b ↦ rw b (get-update j k f m)
  ])
]

pub get-insert :
    {V : Type 0} (j k : String) (v : V) (m : BTreeMap V)
    → get j (insert k v m) ≡ (if str_eq k j then some v else get j m)
unfolding get insert
get-insert j k v [] = refl
get-insert j k v ((i, w) ∷ m) = elim (Bool-cases (str_eq i k)) [
  | inl a ↦
      rw (a, (eq_iff i k).0 a)
        (elim (Bool-cases (str_eq k j)) [ inl b ↦ rw b refl | inr b ↦ rw b refl ])
  | inr a ↦ elim (Bool-cases (str_ltb k i)) [
    | inl b ↦ rw (a, b) refl
    | inr b ↦
        rw (a, b)
          (elim (Bool-cases (str_eq i j)) [
            | inl d ↦
                let apart : str_eq k j ≡ false =
                  ground (arith, a, d, eq_iff i j, eq_iff k j, eq_iff i k) in
                rw (d, apart) refl
            | inr d ↦ rw d (get-insert j k v m)
          ])
  ]
]
