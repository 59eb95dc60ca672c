-- ===== src/Prelude/Text.antt =====
-- Whole texts: equality, joining, and the decimal digits of a number, as `format!` writes them.
use Prim.Native.Nat.{ℕ, zero, suc, ◌/◌, ◌%◌}
use Prim.Native.String.{◌++◌ as str_append}
pub use text.Mathlib.Text.{◌==◌ as str_eq, starts_with}
pub use text.Mathlib.TextEquality.{eq_iff}
use Prim.Native.String.{String}
use mathlib.Core.List.{List, [], ◌∷◌}
use qapi_rs.Prelude.Tests.{ltb, if◌then◌else◌}

-- The pieces of a `format!`, joined.
abbrev pub concat : List String → String
concat [] = ""
concat (s ∷ ss) = str_append s (concat ss)

digit : ℕ → String
digit zero = "0"
digit (suc zero) = "1"
digit (suc (suc zero)) = "2"
digit (suc (suc (suc zero))) = "3"
digit (suc (suc (suc (suc zero)))) = "4"
digit (suc (suc (suc (suc (suc zero))))) = "5"
digit (suc (suc (suc (suc (suc (suc zero)))))) = "6"
digit (suc (suc (suc (suc (suc (suc (suc zero))))))) = "7"
digit (suc (suc (suc (suc (suc (suc (suc (suc zero)))))))) = "8"
digit _ = "9"

-- One round a digit; a number has no more digits than its value and one.
digits : ℕ → ℕ → String → String
digits zero n tail = tail
digits (suc fuel) n tail =
    let rest = digits fuel (n / 10) (str_append (digit (n % 10)) tail) in
    if ltb n 10 then str_append (digit n) tail else rest

-- The decimal text of a number.
abbrev pub show : ℕ → String
unfolding digit digits
show n = digits (suc n) n ""
