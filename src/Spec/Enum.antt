-- ===== src/Spec/Enum.antt =====
-- spec/src/lib.rs, trait `Enum`: an enumeration is given by its table of names and, in the same
-- order, of variants; a variant's discriminant is its place in the tables.
use qapi_rs.Prelude.{
  ℕ, zero, suc, String, ◌≡◌, ◌≢◌, Option, none, some, List, [], ◌∷◌, arith, All, get_elem?,
  if◌then◌else◌,
}
use qapi_rs.Prelude.Text.{str_eq, eq_iff}

pub record Enum (V : Type 0) : Type 0 where
  pub discriminant : V → ℕ
  pub variants : List V
  pub names : List String

-- Every name of the list differs from `n`.
abbrev pub Fresh : String → List String → Type 0
Fresh n ns = All (λ m. m ≢ n) ns

abbrev pub Distinct : List String → Type 0
Distinct [] = Unit
Distinct (n ∷ ns) = Fresh n ns × Distinct ns

pub Fresh-get_elem? :
    (n : String) (ns : List String) (i : ℕ) {s : String}
    → Fresh n ns
    → get_elem? ns i ≡ some s
    → s ≢ n
Fresh-get_elem? n [] i f h = cc
Fresh-get_elem? n (m ∷ ns) zero f h = λ e. f.0 (cc)
Fresh-get_elem? n (m ∷ ns) (suc i) f h = Fresh-get_elem? n ns i f.1 h

module _ {V : Type 0} where
  -- `names.iter().zip(variants).find(|(n, _)| n == s)`, the pair's second half.
  find : String → List String → List V → Option V
  find s [] vs = none
  find s (n ∷ ns) [] = none
  find s (n ∷ ns) (v ∷ vs) = if str_eq n s then some v else find s ns vs

  -- `from_name`
  pub from_name : Enum V → String → Option V
  unfolding find
  from_name e s = find s e.names e.variants

  -- `name`: an unchecked read of the table, so `none` stands for undefined behaviour.
  unfoldable pub name : Enum V → V → Option String
  name e v = get_elem? e.names (e.discriminant v)

  -- What the generator promises of the tables: no name twice, and each variant stands in the
  -- table at its discriminant, beside a name.
  pub record IsTable (e : Enum V) : Type 0 where
    pub distinct : Distinct e.names
    pub placed : (v : V) → get_elem? e.variants (e.discriminant v) ≡ some v
    pub named : (v : V) → (s : String) × (get_elem? e.names (e.discriminant v) ≡ some s)

  find-get_elem? :
      (ns : List String) (vs : List V) (i : ℕ) (s : String) (v : V)
      → Distinct ns
      → get_elem? ns i ≡ some s
      → get_elem? vs i ≡ some v
      → find s ns vs ≡ some v
  unfolding find
  find-get_elem? [] vs i s v d hn hv = cc
  find-get_elem? (n ∷ ns) [] i s v d hn hv = cc
  find-get_elem? (n ∷ ns) (w ∷ vs) zero s v d hn hv = ground (arith, eq_iff n s)
  find-get_elem? (n ∷ ns) (w ∷ vs) (suc i) s v d hn hv = ground (
    arith,
    eq_iff n s,
    Fresh-get_elem? n ns i {s = s} d.0 hn,
    find-get_elem? ns vs i s v d.1 hn hv,
  )

  -- In tables without a name twice, the name at a place stands for the variant there.
  pub from_name-get_elem? :
      (e : Enum V) (i : ℕ) (s : String) (v : V)
      → Distinct e.names
      → get_elem? e.names i ≡ some s
      → get_elem? e.variants i ≡ some v
      → from_name e s ≡ some v
  unfolding from_name
  from_name-get_elem? e i s v d hn hv = find-get_elem? e.names e.variants i s v d hn hv

  -- With tables as generated, `name` reads inside its table for every variant, and `from_name`
  -- gives the variant back.
  from_name-name :
      (e : Enum V) (v : V)
      → IsTable e
      → (s : String) × (name e v ≡ some s) × (from_name e s ≡ some v)
  unfolding name
  from_name-name e v t =
      let (s, h) = t.named v in
      (s, h, from_name-get_elem? e (e.discriminant v) s v t.distinct h (t.placed v))
