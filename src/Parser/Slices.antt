-- ===== src/Parser/Slices.antt =====
-- The lines and slices that the iterator of parser/src/lib.rs counts with.
use mathlib.Core.List.{append-nil}
use qapi_rs.Prelude.{
  ℕ, suc, ◌+◌, ◌-◌, ◌≡◌, ◌≢◌, refl, ap, sym, ◌∙◌, some, List, [], ◌∷◌, ◌++◌, arith, length, take,
  All, length-append, take-append_length, drop-append_length, ◌==◌, Bool-cases, inl, inr, ◌&&◌,
  if◌then◌else◌,
}
use qapi_rs.Parser.{Text, starts_with, line_step, lines, slice, sum_lines}

-- How many line feeds a text has.
abbrev pub feeds : Text → ℕ
feeds [] = 0
feeds (c ∷ cs) = if c == b'\n' then suc (feeds cs) else feeds cs

-- No carriage return.
abbrev pub IsUnix : Text → Type 0
IsUnix s = All (λ c. c ≢ b'\r') s

line_step-more :
    (d : ℕ) (ds : Text) (l : Text) (ls : List Text)
    → (m : Text) × (ms : List Text) × (line_step d ds (l ∷ ls) ≡ m ∷ ms)
line_step-more d ds l ls = elim (Bool-cases (d == b'\n')) [
  | inl e ↦ ([], l ∷ ls, rw e)
  | inr e ↦ elim (Bool-cases ((d == b'\r') && starts_with b'\n' ds)) [
    | inl f ↦ (l, ls, rw (e, f))
    | inr f ↦ (d ∷ l, ls, rw (e, f))
  ]
]

lines-more : (s t : Text) → (l : Text) × (ls : List Text) × (lines (s ++ b'\n' ∷ t) ≡ l ∷ ls)
unfolding lines
lines-more [] t = ([], lines t, refl)
lines-more (c ∷ cs) t =
    let (l, ls, e) = lines-more cs t in
    let (m, ms, f) = line_step-more c (cs ++ b'\n' ∷ t) l ls in
    (m, ms, ap (line_step c (cs ++ b'\n' ∷ t)) e ∙ f)

-- The first lines of a text hold all the bytes up to a line feed, those of their ends included.
pub sum_lines-feeds :
    (s t : Text)
    → IsUnix s
    → sum_lines (take (suc (feeds s)) (lines (s ++ b'\n' ∷ t))) ≡ suc (length s)
unfolding lines
sum_lines-feeds [] t a = omega arith
sum_lines-feeds (c ∷ cs) t a =
    let (l, ls, e) = lines-more cs t in
    let ih = sum_lines-feeds cs t a.1 in ground (arith, e, ih, a.0)

pub slice-middle : (a b c : Text) → slice (length a) (length a + length b) (a ++ (b ++ c)) ≡ some b
unfolding slice
slice-middle a b c =
    let difference : length a + length b - length a ≡ length b = omega arith in
    rw (drop-append_length a (b ++ c), difference, take-append_length b c)
      (ground (arith, length-append a (b ++ c), length-append b c))

pub slice-rest : (a b : Text) → slice (length a) (length (a ++ b)) (a ++ b) ≡ some b
slice-rest a b = rw (length-append a b) (
    ap (λ c. slice (length a) (length a + length b) (a ++ c)) (sym (append-nil b))
    ∙ slice-middle a b [])
