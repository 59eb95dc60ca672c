-- ===== src/Prelude/Results.antt =====
-- What a call of the program comes to: a value, an error, or a panic (an unwrap, an assertion,
-- an index out of range).
use mathlib.Core.Path.{◌≡◌, refl}

pub data Outcome {ℓ κ} (E : Type ℓ) (A : Type κ) : Type (ℓ ⊔ κ) where
  ok : A → Outcome E A
  err : E → Outcome E A
  panic : Outcome E A

-- `Result::map` and `Result::map_err`.
module _ {ℓ κ μ} {E : Type ℓ} {A : Type κ} {T : Type μ} where
  abbrev pub map_ok : (A → T) → Outcome E A → Outcome E T
  map_ok f panic = panic
  map_ok f (err e) = err e
  map_ok f (ok a) = ok (f a)

  abbrev pub map_err : (E → T) → Outcome E A → Outcome T A
  map_err f panic = panic
  map_err f (err e) = err (f e)
  map_err f (ok a) = ok a

-- What `?` does with a result, and with one that has no value to name.
module _ {ℓ κ μ} {E : Type ℓ} {A : Type κ} {T : Type μ} where
  infixl 5 ◌>>=◌
  abbrev pub ◌>>=◌ : Outcome E A → (A → Outcome E T) → Outcome E T
  panic >>= k = panic
  err e >>= k = err e
  ok a >>= k = k a

  -- A chain that comes to a value has come to one at each link.
  pub >>=-eq-ok :
      (first : Outcome E A) (k : A → Outcome E T) {t : T}
      → first >>= k ≡ ok t
      → (a : A) × (first ≡ ok a) × (k a ≡ ok t)
  >>=-eq-ok panic k e = cc
  >>=-eq-ok (err _) k e = cc
  >>=-eq-ok (ok a) k e = (a, refl, e)

infixl 5 ◌>>◌
abbrev pub ◌>>◌ {ℓ μ} : {E : Type ℓ} {T : Type μ} → Outcome E (Unit {0}) → Outcome E T → Outcome E T
first >> second = first >>= λ done. second

pub ok_injective {ℓ κ} :
    {E : Type ℓ} {A : Type κ} {a b : A} → ◌≡◌ {A = Outcome E A} (ok a) (ok b) → a ≡ b
ok_injective e = cc
