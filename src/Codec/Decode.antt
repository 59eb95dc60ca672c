-- ===== src/Codec/Decode.antt =====
-- `priv_decode` and `priv_decode_eof` of qapi/src/futures/codec.rs, one call at a time.
use mathlib.Core.List.{append_assoc, append-nil}
use qapi_rs.Prelude.{
  ℕ, ◌+◌, ◌≡◌, refl, sym, ap, ◌∙◌, [], ◌∷◌, ◌++◌, arith, length, length-append, drop-append_length,
  none, some, ok, map_ok, ◌⊎◌, inl, inr,
}
use qapi_rs.Codec.{
  Bytes, Absent, ByteOps, IsDocumented, Json, JsonLinesCodec, Decoded, slice_from, parse, take_line,
  priv_decode,
}
use qapi_rs.Codec.Scan.{unfinished, line, first_line}

-- The codec has searched the front of the buffer, up to its index, and found no newline there.
pub record IsSearched (c : JsonLinesCodec) (buf : Bytes) : Type 0 where
  pub seen : Bytes
  pub unseen : Bytes
  pub splits : buf ≡ seen ++ unseen
  pub index : c.next_index ≡ length seen
  pub absent : Absent b'\n' seen

pub start-IsSearched : (buf : Bytes) → IsSearched (record { next_index = 0 }) buf
start-IsSearched buf = record { seen = []; unseen = buf; splits = refl; index = refl; absent = tt }

pub whole-IsSearched :
    (c : JsonLinesCodec) (buf : Bytes)
    → c.next_index ≡ length buf
    → Absent b'\n' buf
    → IsSearched c buf
whole-IsSearched c buf e a = record {
  seen = buf;
  unseen = [];
  splits = sym (append-nil buf);
  index = e;
  absent = a;
}

Absent-append : (s t : Bytes) → Absent b'\n' s → Absent b'\n' t → Absent b'\n' (s ++ t)
Absent-append [] t a b = b
Absent-append (c ∷ s) t a b = (a.0, Absent-append s t a.1 b)

-- More bytes behind the buffer leave the searched part searched.
pub IsSearched-append :
    {c : JsonLinesCodec} (buf more : Bytes) → IsSearched c buf → IsSearched c (buf ++ more)
IsSearched-append buf more i = record {
  seen = i.seen;
  unseen = i.unseen ++ more;
  splits = rw i.splits (append_assoc i.seen i.unseen more);
  index = i.index;
  absent = i.absent;
}

slice_from-append : (s t : Bytes) → slice_from (length s) (s ++ t) ≡ some t
unfolding slice_from
slice_from-append s t = ground (arith, drop-append_length s t, length-append s t)

module _ {D : Type 0} (x : ByteOps) (json : Json D) where
  -- The buffer holds no newline: the call asks for more, and remembers how far it has searched.
  abbrev pub Waits : Bytes → Decoded D → Type 0
  Waits buf d =
      d ≡ record { codec = record { next_index = length buf }; buf = buf; frame = ok none }

  -- The buffer starts with a line: the call takes it off, parses it, and starts over.
  abbrev pub Yields : Bytes → Bytes → Decoded D → Type 0
  Yields before after d = d ≡ record {
    codec = record { next_index = 0 };
    buf = after;
    frame = map_ok some (parse x json (before ++ b'\n' ∷ []));
  }

  module _ (doc : IsDocumented x) where
    pub priv_decode-miss :
        (seen unseen : Bytes)
        → Absent b'\n' unseen
        → Waits
            (seen ++ unseen)
            (priv_decode x json (record { next_index = length seen }) (seen ++ unseen))
    unfolding priv_decode
    priv_decode-miss seen unseen a =
        rw (priv_decode, slice_from-append seen unseen, doc.memchr_miss b'\n' unseen a)

    take_line-at :
        (front back : Bytes) (index : ℕ)
        → index + 1 ≡ length front
        → take_line x json index (front ++ back) ≡ record {
          codec = record { next_index = 0 };
          buf = back;
          frame = map_ok some (parse x json front);
        }
    unfolding take_line
    take_line-at front back index e = rw (e, doc.split_to_at front back)

    line_regroup :
        (seen before after : Bytes)
        → seen ++ (before ++ b'\n' ∷ after) ≡ ((seen ++ before) ++ b'\n' ∷ []) ++ after
    line_regroup seen before after = simp append_assoc

    pub priv_decode-hit :
        (seen before after : Bytes)
        → Absent b'\n' before
        → Yields (seen ++ before) after (
            priv_decode x json
              (record { next_index = length seen })
              (seen ++ (before ++ b'\n' ∷ after)))
    unfolding priv_decode
    priv_decode-hit seen before after a =
        rw
          (
            priv_decode,
            slice_from-append seen (before ++ b'\n' ∷ after),
            doc.memchr_hit b'\n' before after a,
            line_regroup seen before after,
          )
          (take_line-at ((seen ++ before) ++ b'\n' ∷ []) after (length before + length seen)
            (omega (arith, length-append seen before, length-append (seen ++ before) (b'\n' ∷ []))))

    -- A call of the decoder on a buffer whose searched part has no newline: with a newline in the
    -- buffer it takes off the first line, newline included, parses exactly that line and starts
    -- over; without one it asks for more, leaves the buffer whole and remembers that it is
    -- searched. The byte routines behave as documented.
    pub priv_decode_first_line :
        (c : JsonLinesCodec) (buf : Bytes)
        → IsSearched c buf
        → (Absent b'\n' buf × Waits buf (priv_decode x json c buf))
          ⊎ ((before : Bytes) × (after : Bytes) × Absent b'\n' before
              × (buf ≡ before ++ b'\n' ∷ after)
              × Yields before after (priv_decode x json c buf))
    priv_decode_first_line c buf i = elim (first_line i.unseen) [
      | unfinished a ↦ inl (
        rw i.splits (Absent-append i.seen i.unseen i.absent a),
        rw (i.splits, i.index) (priv_decode-miss i.seen i.unseen a),
      )
      | line before after a e ↦ inr (
        i.seen ++ before,
        after,
        Absent-append i.seen before i.absent a,
        i.splits ∙ ap (◌++◌ i.seen) e ∙ sym (append_assoc i.seen before (b'\n' ∷ after)),
        rw (i.splits, e, i.index) (priv_decode-hit i.seen before after a),
      )
    ]
