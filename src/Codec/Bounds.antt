-- ===== src/Codec/Bounds.antt =====
-- The search index of qapi/src/futures/codec.rs stays within the buffer.
use qapi_rs.Prelude.{
  ℕ, zero, suc, ◌≤◌, ◌≡◌, ◌≢◌, refl, ap, [], ◌∷◌, ◌++◌, Outcome, ok, err, panic, map_ok, some,
  arith, length, length-append, take, drop,
}
use qapi_rs.Spec.{IoError}
use qapi_rs.Codec.{Bytes, ByteOps, IsDocumented, Json, JsonLinesCodec, Decoded, parse, priv_decode}
use qapi_rs.Codec.Scan.{first_line, unfinished, line}
use qapi_rs.Codec.Decode.{Waits, Yields, priv_decode-hit, priv_decode-miss}

take-drop : (n : ℕ) (s : Bytes) → take n s ++ drop n s ≡ s
take-drop zero s = refl
take-drop (suc n) [] = refl
take-drop (suc n) (c ∷ cs) = ap (◌∷◌ c) (take-drop n cs)

length-take : (n : ℕ) (s : Bytes) → n ≤ length s → length (take n s) ≡ n
length-take zero s h = refl
length-take (suc n) [] h = omega arith
length-take (suc n) (c ∷ cs) h = omega (arith, length-take n cs)

map_ok-panic : {D T : Type 0} (f : D → T) (r : Outcome IoError D) → r ≢ panic → map_ok f r ≢ panic
map_ok-panic f (ok d) h e = cc
map_ok-panic f (err x) h e = cc
map_ok-panic f panic h e = h refl

module _ {D : Type 0} (x : ByteOps) (json : Json D) where
  -- A call keeps the index in the buffer, takes nothing in, and does not panic.
  abbrev pub StaysIn : Bytes → Decoded D → Type 0
  StaysIn buf d =
      (d.codec.next_index ≤ length d.buf) × (length d.buf ≤ length buf) × (d.frame ≢ panic)

  module _ (doc : IsDocumented x) (total : (s : Bytes) → parse x json s ≢ panic) where
    Waits-StaysIn : (buf : Bytes) (d : Decoded D) → Waits x json buf d → StaysIn buf d
    Waits-StaysIn buf d w = rw w (omega arith, omega arith, λ e. cc)

    Yields-StaysIn :
        (buf front before after : Bytes) (d : Decoded D)
        → buf ≡ front ++ (before ++ b'\n' ∷ after)
        → Yields x json (front ++ before) after d
        → StaysIn buf d
    Yields-StaysIn buf front before after d e y = rw y (
      omega arith,
      omega (
        arith,
        ap length e,
        length-append front (before ++ b'\n' ∷ after),
        length-append before (b'\n' ∷ after),
      ),
      map_ok-panic some (parse x json ((front ++ before) ++ b'\n' ∷ [])) (total _),
    )

    in_bounds_at :
        (seen unseen : Bytes)
        → StaysIn
            (seen ++ unseen)
            (priv_decode x json (record { next_index = length seen }) (seen ++ unseen))
    in_bounds_at seen unseen = elim (first_line unseen) [
      | unfinished a ↦ Waits-StaysIn (seen ++ unseen) _ (priv_decode-miss x json doc seen unseen a)
      | line before after a e ↦ rw e (
          Yields-StaysIn (seen ++ (before ++ b'\n' ∷ after)) seen before after _ refl
            (priv_decode-hit x json doc seen before after a))
    ]

    -- Whatever the buffer holds, and however far into it the index points: a call of
    -- the decoder leaves an index within the buffer that it leaves, which is no longer than
    -- before, and it does not panic, so that its slice of the buffer never goes past
    -- the end. The byte routines behave as documented, and the JSON reader does not panic.
    pub priv_decode_in_bounds :
        (c : JsonLinesCodec) (buf : Bytes)
        → c.next_index ≤ length buf
        → StaysIn buf (priv_decode x json c buf)
    priv_decode_in_bounds c buf h =
        let at = in_bounds_at (take c.next_index buf) (drop c.next_index buf) in
        rw (take-drop c.next_index buf, length-take c.next_index buf h) at at
