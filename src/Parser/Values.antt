-- ===== src/Parser/Values.antt =====
-- The iterator of parser/src/lib.rs over a text of values that each start on a line of their own.
use mathlib.Core.List.{append_assoc, append-nil}
use qapi_rs.Prelude.{
  ℕ, zero, suc, ◌+◌, ◌-◌, ◌≡◌, refl, ap, sym, true, false, Option, none, some, List, [], ◌∷◌, ◌++◌,
  Outcome, ok, err, arith, length, take, replicate, All, length-append,
}
use qapi_rs.Parser.{
  Text, Parser, Reader, lines, slice, sum_lines, next, read_piece, on_error, from_string,
}
use qapi_rs.Parser.Slices.{feeds, IsUnix, sum_lines-feeds, slice-middle, slice-rest}

-- A parser that has read `front`.
abbrev pub at : Text → Text → Parser
at front rest = record { data_ = front ++ rest; pos = length front; eof = false }

module _ {V E : Type 0} (r : Reader V E) where
  -- serde_json's documentation, on the texts that denote a value: such a text is read, also with
  -- a line feed behind it; with another one on the next line, the reader stops at its first byte
  -- and gives its line and column, both counted from 1.
  pub record IsDocumented (Denotes : Text → V → Type 0) : Type 0 where
    pub reads : (s : Text) (v : V) → Denotes s v → r.from_str s ≡ ok v
    pub reads_line : (s : Text) (v : V) → Denotes s v → r.from_str (s ++ b'\n' ∷ []) ≡ ok v
    pub trailing :
        (s t more : Text) (v w : V)
        → Denotes s v
        → Denotes t w
        → (e : E) × (r.from_str (s ++ b'\n' ∷ (t ++ more)) ≡ err e)
          × (r.line e ≡ suc (suc (feeds s)))
          × (r.column e ≡ 1)

  -- The answers to `n` calls of `next` in a row.
  pub calls : ℕ → Parser → List (Option (Outcome E V))
  calls zero p = []
  calls (suc n) p = (next r p).1 ∷ calls n (next r p).0

  on_error-column_one :
      (p : Parser) (rest : Text) (e : E) (k count : ℕ)
      → r.line e ≡ suc (suc k)
      → r.column e ≡ 1
      → sum_lines (take (suc k) (lines rest)) ≡ count
      → on_error r p rest e ≡ read_piece r p count (slice p.pos (p.pos + count) p.data_)
  unfolding on_error
  on_error-column_one p rest e k count l c h =
      let back : p.pos + count + 1 - 1 ≡ p.pos + count = omega arith in
      let less : suc (suc k) - 1 ≡ suc k = omega arith in
      rw (on_error, l, c, less, h, back) (ground arith)

  -- The reader stops in the first line of what is left: the call moves on by no byte.
  next-same_line :
      (front piece more : Text) (e : E)
      → r.from_str (piece ++ more) ≡ err e
      → r.line e ≡ 1
      → r.column e ≡ suc (length piece)
      → next r (at front (piece ++ more)) ≡ (at front (piece ++ more), some (r.from_str piece))
  unfolding next on_error read_piece
  next-same_line front piece more e stops l c =
      let back : length front + 0 + suc (length piece) - 1 ≡ length front + length piece =
        omega arith in
      let stays : length front + 0 ≡ length front = omega arith in
      rw
        (
          next,
          slice-rest front (piece ++ more),
          stops,
          on_error,
          l,
          c,
          back,
          slice-middle front piece more,
          stays,
        )
        (ground (arith, stays))

  -- Where the reader stops behind its value in the first line of what is left, as it does when
  -- two values share a line, every call of the iterator gives the same answer, however many.
  pub calls-same_line :
      (n : ℕ) (front piece more : Text) (e : E)
      → r.from_str (piece ++ more) ≡ err e
      → r.line e ≡ 1
      → r.column e ≡ suc (length piece)
      → calls n (at front (piece ++ more)) ≡ replicate n (some (r.from_str piece))
  unfolding calls
  calls-same_line zero front piece more e stops l c = refl
  calls-same_line (suc n) front piece more e stops l c =
      rw (next-same_line front piece more e stops l c)
        (ap (◌∷◌ (some (r.from_str piece))) (calls-same_line n front piece more e stops l c))

  -- Values with their texts, and the text of them all, each starting on a line of its own.
  abbrev pub text : Text × V → List (Text × V) → Text
  text (s, v) [] = s
  text (s, v) (f ∷ fs) = s ++ b'\n' ∷ text f fs

  abbrev pub answers : Text × V → List (Text × V) → List (Option (Outcome E V))
  answers (s, v) [] = some (ok v) ∷ none ∷ []
  answers (s, v) (f ∷ fs) = some (ok v) ∷ answers f fs

  module _ (Denotes : Text → V → Type 0) (doc : IsDocumented Denotes) where
    abbrev pub AreValues : List (Text × V) → Type 0
    AreValues fs = All (λ f. Denotes f.0 f.1 × IsUnix f.0) fs

    next-last :
        (front s : Text) (v : V)
        → Denotes s v
        → next r (at front s) ≡ (record (at front s) { eof = true }, some (ok v))
    unfolding next
    next-last front s v d = rw (next, slice-rest front s, doc.reads s v d)

    text-starts : (f : Text × V) (fs : List (Text × V)) → (more : Text) × (text f fs ≡ f.0 ++ more)
    text-starts (s, v) [] = ([], sym (append-nil s))
    text-starts (s, v) (f ∷ fs) = (b'\n' ∷ text f fs, refl)

    regroup :
        (front s rest : Text) → front ++ (s ++ b'\n' ∷ rest) ≡ (front ++ (s ++ b'\n' ∷ [])) ++ rest
    regroup front s rest = simp append_assoc

    slice-piece :
        (front s rest : Text)
        → slice (length front) (length front + suc (length s)) (front ++ (s ++ b'\n' ∷ rest))
          ≡ some (s ++ b'\n' ∷ [])
    slice-piece front s rest =
        let n : suc (length s) ≡ length (s ++ b'\n' ∷ []) =
          omega (arith, length-append s (b'\n' ∷ [])) in
        rw (n, ← append_assoc s (b'\n' ∷ []) rest) (slice-middle front (s ++ b'\n' ∷ []) rest)

    moved :
        (front s rest : Text)
        → record (at front (s ++ b'\n' ∷ rest)) { pos = length front + suc (length s) }
          ≡ at (front ++ (s ++ b'\n' ∷ [])) rest
    moved front s rest =
        let n : length front + suc (length s) ≡ length (front ++ (s ++ b'\n' ∷ [])) =
          omega (arith, length-append s (b'\n' ∷ []), length-append front (s ++ b'\n' ∷ [])) in
        cc (n, regroup front s rest)

    next-first :
        (front s t more : Text) (v w : V)
        → Denotes s v
        → Denotes t w
        → IsUnix s
        → next r (at front (s ++ b'\n' ∷ (t ++ more)))
          ≡ (at (front ++ (s ++ b'\n' ∷ [])) (t ++ more), some (ok v))
    unfolding next read_piece
    next-first front s t more v w d e u =
        let (x, stops, line_x, column_x) = doc.trailing s t more v w d e in
        rw (
          next,
          slice-rest front (s ++ b'\n' ∷ (t ++ more)),
          stops,
          on_error-column_one (at front (s ++ b'\n' ∷ (t ++ more))) (s ++ b'\n' ∷ (t ++ more)) x
              (feeds s) (suc (length s)) line_x column_x (sum_lines-feeds s (t ++ more) u),
          slice-piece front s (t ++ more),
          doc.reads_line s v d,
          moved front s (t ++ more),
        )

    calls-at :
        (front : Text) (f : Text × V) (fs : List (Text × V))
        → AreValues (f ∷ fs)
        → calls (suc (suc (length fs))) (at front (text f fs)) ≡ answers f fs
    unfolding calls next
    calls-at front (s, v) [] a = rw (next-last front s v a.0.0)
    calls-at front (s, v) (f ∷ fs) a =
        let (more, e) = text-starts f fs in
        rw (e, next-first front s f.0 more v f.1 a.0.0 a.1.0.0 a.0.1, ← e)
          (ap (◌∷◌ (some (ok v))) (calls-at (front ++ (s ++ b'\n' ∷ [])) f fs a.1))

    -- A text of one or more values, each starting on a line of its own, with no carriage return in
    -- it: the calls of the iterator give every value once, in order, and then its end, where the
    -- JSON reader reads each value and stops at what follows it.
    pub calls-text :
        (f : Text × V) (fs : List (Text × V))
        → AreValues (f ∷ fs)
        → calls (suc (suc (length fs))) (from_string (text f fs)) ≡ answers f fs
    unfolding from_string
    calls-text f fs a = calls-at [] f fs a
