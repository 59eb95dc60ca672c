-- ===== src/Codec/Scan.antt =====
-- What a byte stream means to the codec of qapi/src/futures/codec.rs, with no buffer or index:
-- its complete lines, newline included, and the unfinished last one.
use mathlib.Core.List.{append_assoc}
use qapi_rs.Prelude.{
  ℕ, zero, suc, ◌<◌, ◌≡◌, refl, ap, ◌≢◌, List, [], ◌∷◌, ◌++◌, arith, length, length-append, ◌==◌,
  if◌then◌else◌, Bool-cases, ==_iff, inl, inr,
}
use qapi_rs.Codec.{Bytes, Absent}

onto_first : ℕ → List Bytes → Bytes → List Bytes × Bytes
onto_first c [] rest = ([], c ∷ rest)
onto_first c (l ∷ ls) rest = ((c ∷ l) ∷ ls, rest)

push_byte : ℕ → List Bytes × Bytes → List Bytes × Bytes
push_byte c (ls, rest) = if c == b'\n' then ((c ∷ []) ∷ ls, rest) else onto_first c ls rest

unfoldable pub scan : Bytes → List Bytes × Bytes
unfolding onto_first push_byte
scan [] = ([], [])
scan (c ∷ cs) = push_byte c (scan cs)

pub scan-Absent : (s : Bytes) → Absent b'\n' s → scan s ≡ ([], s)
unfolding scan
scan-Absent [] a = refl
scan-Absent (c ∷ cs) a = rw (scan-Absent cs a.1) (ground (arith, a.0))

pub scan_line :
    (before after : Bytes)
    → Absent b'\n' before
    → scan (before ++ b'\n' ∷ after) ≡ ((before ++ b'\n' ∷ []) ∷ (scan after).0, (scan after).1)
unfolding scan
scan_line [] after a = refl
scan_line (c ∷ cs) after a = rw (scan_line cs after a.1) (ground (arith, a.0))

-- A buffer is one unfinished line, or a line and the rest.
pub data FirstLine (s : Bytes) : Type 0 where
  unfinished : Absent b'\n' s → FirstLine s
  line : (before after : Bytes) → Absent b'\n' before → s ≡ before ++ b'\n' ∷ after → FirstLine s

FirstLine-cons : (c : ℕ) (s : Bytes) → c ≢ b'\n' → FirstLine s → FirstLine (c ∷ s)
FirstLine-cons c s h (unfinished a) = unfinished (h, a)
FirstLine-cons c s h (line before after a e) = line (c ∷ before) after (h, a) (ap (◌∷◌ c) e)

pub first_line : (s : Bytes) → FirstLine s
first_line [] = unfinished tt
first_line (c ∷ cs) = elim (Bool-cases (c == b'\n')) [
  | inl e ↦ line [] cs tt (ap (λ (d : ℕ). d ∷ cs) ((==_iff c b'\n').0 e))
  | inr e ↦ FirstLine-cons c cs (λ q. cc (e, (==_iff c b'\n').1 q)) (first_line cs)
]

pub scan-Absent_rest : (n : ℕ) (s : Bytes) → length s < n → Absent b'\n' (scan s).1
scan-Absent_rest zero s h = absurd (omega arith)
scan-Absent_rest (suc n) s h = elim (first_line s) [
  | unfinished a ↦ rw (scan-Absent s a) a
  | line before after a e ↦
      rw (e, scan_line before after a)
        (scan-Absent_rest n after
          (omega (arith, ap length e, length-append before (b'\n' ∷ after))))
]

-- The lines of a stream that is read in two parts are those of the first part, then those of
-- its unfinished line followed by the second.
pub scan-append :
    (n : ℕ) (s t : Bytes)
    → length s < n
    → scan (s ++ t) ≡ ((scan s).0 ++ (scan ((scan s).1 ++ t)).0, (scan ((scan s).1 ++ t)).1)
scan-append zero s t h = absurd (omega arith)
scan-append (suc n) s t h = elim (first_line s) [
  | unfinished a ↦ rw (scan-Absent s a) refl
  | line before after a e ↦
      rw
        (
          e,
          append_assoc before (b'\n' ∷ after) t,
          scan_line before (after ++ t) a,
          scan_line before after a,
        )
        (ap (λ (r : List Bytes × Bytes). ((before ++ b'\n' ∷ []) ∷ r.0, r.1))
          (scan-append n after t
            (omega (arith, ap length e, length-append before (b'\n' ∷ after)))))
]
