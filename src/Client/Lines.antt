-- ===== src/Client/Lines.antt =====
-- `decode_line` of qapi/src/lib.rs against the lines of the stream.
use qapi_rs.Prelude.{
  ℕ, ◌+◌, ◌<◌, ◌≡◌, refl, ap, Option, none, some, [], ◌∷◌, ◌++◌, Outcome, ok, map_ok, arith, length,
  ◌==◌, if_intro, ◌∙◌,
}
use qapi_rs.Spec.{IoError}
use qapi_rs.Codec.{Bytes, Absent}
use qapi_rs.Client.Wire.{
  Qapi, Split, found, missing, split_line, onto, read_until, at_split, decode_line, parse_line,
  after_read,
}

split_line-line :
    (d : ℕ) (before after : Bytes)
    → Absent d before
    → split_line d (before ++ d ∷ after) ≡ found (before ++ d ∷ []) after
unfolding split_line
split_line-line d [] after a = ground arith
split_line-line d (c ∷ cs) after a = rw (split_line-line d cs after a.1) (ground (arith, a.0))

-- A line takes its bytes off the stream, and it is not empty.
abbrev Takes : Bytes → Split → Type 0
Takes s (found line rest) = length line + length rest ≡ length s × (0 < length line)
Takes s (missing line) = length line ≡ length s

onto-Takes : (c : ℕ) (cs : Bytes) (p : Split) → Takes cs p → Takes (c ∷ cs) (onto c p)
unfolding onto
onto-Takes c cs (found line rest) h = omega arith
onto-Takes c cs (missing line) h = omega arith

split_line-Takes : (d : ℕ) (s : Bytes) → Takes s (split_line d s)
unfolding split_line
split_line-Takes d [] = refl
split_line-Takes d (c ∷ cs) =
    if_intro (Takes (c ∷ cs)) (c == d) (omega arith)
      (onto-Takes c cs (split_line d cs) (split_line-Takes d cs))

parse_line-line :
    {D : Type 0} (from_slice : Bytes → Outcome IoError D) (before : Bytes) (d : ℕ)
    → parse_line from_slice (before ++ d ∷ []) ≡ map_ok some (from_slice (before ++ d ∷ []))
unfolding parse_line
parse_line-line from_slice [] d = refl
parse_line-line from_slice (c ∷ cs) d = refl

module _ {W D : Type 0} (from_slice : Bytes → Outcome IoError D) where
  pub decode_line-line :
      (q : Qapi W) (before after : Bytes)
      → q.r.unread ≡ before ++ b'\n' ∷ after
      → Absent b'\n' before
      → decode_line from_slice q ≡ (
        record q { r = record (q.r) { unread = after }; buffer = before ++ b'\n' ∷ [] },
        map_ok some (from_slice (before ++ b'\n' ∷ [])),
      )
  unfolding decode_line read_until
  decode_line-line q before after e a =
      ap (λ (s : Bytes). after_read from_slice q (at_split q.r (split_line b'\n' s))) e
      ∙ ap (λ p. after_read from_slice q (at_split q.r p)) (split_line-line b'\n' before after a)
      ∙ ap
          (λ r.
            (record q { r = record (q.r) { unread = after }; buffer = before ++ b'\n' ∷ [] }, r))
          (parse_line-line from_slice before b'\n')

  at_split-shorter :
      (q : Qapi W) (p : Split) (ending : Option IoError) (v : D)
      → Takes q.r.unread p
      → q.r.ending ≡ ending
      → (after_read from_slice q (at_split q.r p)).1 ≡ ok (some v)
      → length (after_read from_slice q (at_split q.r p)).0.r.unread < length q.r.unread
  unfolding after_read at_split parse_line
  at_split-shorter q (found line rest) ending v t e h = omega arith
  at_split-shorter q (missing line) (some x) v t e h = ground arith
  at_split-shorter q (missing []) none v t e h = ground arith
  at_split-shorter q (missing (c ∷ line)) none v t e h = ground arith

  -- A message takes bytes off the stream.
  pub decode_line-shorter :
      (q : Qapi W) (v : D)
      → (decode_line from_slice q).1 ≡ ok (some v)
      → length (decode_line from_slice q).0.r.unread < length q.r.unread
  unfolding decode_line read_until
  decode_line-shorter q v h =
      at_split-shorter q (split_line b'\n' q.r.unread) q.r.ending v
        (split_line-Takes b'\n' q.r.unread) refl h
