-- ===== src/Codec.antt =====
-- qapi/src/futures/codec.rs: JSON values framed by newlines, over a buffer that grows as the
-- socket is read. The search is the `memchr` crate's, the buffer's split the `bytes` crate's, and
-- the JSON reader serde_json's: all are parameters.
pub mod Scan
pub mod Decode
pub mod Bounds
pub mod Feed
pub mod Encode
use qapi_rs.Prelude.{
  ℕ, ◌+◌, ◌≡◌, ◌≢◌, Option, none, some, List, [], ◌∷◌, ◌++◌, Outcome, ok, err, panic, map_ok,
  map_err, length, drop, leb, All, if◌then◌else◌,
}
use qapi_rs.Spec.{IoError}

abbrev pub Bytes : Type 0
Bytes = List ℕ

-- No byte of the list is `b`.
abbrev pub Absent : ℕ → Bytes → Type 0
Absent b s = All (λ c. c ≢ b) s

-- The byte routines of the `memchr` and `bytes` crates that the codec calls.
pub record ByteOps : Type 0 where
  pub memchr : ℕ → Bytes → Option ℕ
  pub split_to : ℕ → Bytes → Bytes × Bytes

-- Their documentation: `memchr` finds the first occurrence, and `split_to` cuts at an index
-- within the buffer and leaves the rest.
pub record IsDocumented (x : ByteOps) : Type 0 where
  pub memchr_hit :
      (b : ℕ) (before after : Bytes)
      → Absent b before
      → x.memchr b (before ++ b ∷ after) ≡ some (length before)
  pub memchr_miss : (b : ℕ) (s : Bytes) → Absent b s → x.memchr b s ≡ none
  pub split_to_at : (front back : Bytes) → x.split_to (length front) (front ++ back) ≡ (front, back)

-- serde_json: the reader of one value, and its errors as I/O errors.
pub record Json (D : Type 0) : Type 1 where
  pub JsonError : Type 0
  pub from_slice : Bytes → Outcome JsonError D
  pub io_error : JsonError → IoError

pub record JsonLinesCodec : Type 0 where
  pub next_index : ℕ

-- What a call leaves: the codec, the buffer, and the frame.
pub record Decoded (D : Type 0) : Type 0 where
  pub codec : JsonLinesCodec
  pub buf : Bytes
  pub frame : Outcome IoError (Option D)

unfoldable pub new : JsonLinesCodec
new = record { next_index = 0 }

-- `&buf[n..]`, which panics past the end.
unfoldable pub slice_from : ℕ → Bytes → Option Bytes
slice_from n buf = if leb n (length buf) then some (drop n buf) else none

module _ {D : Type 0} (x : ByteOps) (json : Json D) where
  -- `serde_json::from_slice(line).map_err(From::from)`
  abbrev pub parse : Bytes → Outcome IoError D
  parse line = map_err json.io_error (json.from_slice line)

  -- The newline stands at `index`: its line is cut off the buffer and parsed.
  unfoldable pub take_line : ℕ → Bytes → Decoded D
  take_line index buf =
      let (line, rest) = x.split_to (index + 1) buf in
      record { codec = record { next_index = 0 }; buf = rest; frame = map_ok some (parse line) }

  unfoldable pub priv_decode : JsonLinesCodec → Bytes → Decoded D
  unfolding take_line
  priv_decode c buf = elim (slice_from c.next_index buf) [
    | none ↦ record { codec = c; buf = buf; frame = panic }
    | some unseen ↦ elim (x.memchr b'\n' unseen) [
      | some offset ↦ take_line (offset + c.next_index) buf
      | none ↦ record { codec = record { next_index = length buf }; buf = buf; frame = ok none }
    ]
  ]

  pub priv_decode_eof : JsonLinesCodec → Bytes → Decoded D
  priv_decode_eof c [] = record { codec = c; buf = []; frame = ok none }
  priv_decode_eof c (b ∷ buf) = record {
    codec = c;
    buf = b ∷ buf;
    frame = map_ok some (parse (b ∷ buf));
  }

  -- `Decoder`
  abbrev decode : JsonLinesCodec → Bytes → Decoded D
  decode = priv_decode

  abbrev decode_eof : JsonLinesCodec → Bytes → Decoded D
  decode_eof = priv_decode_eof

module _ {S : Type 0} (to_writer : S → Bytes → Bytes × Outcome IoError (Unit {0})) where
  end_line : Bytes × Outcome IoError (Unit {0}) → Bytes × Outcome IoError (Unit {0})
  end_line (bytes, ok done) = (bytes ++ b'\n' ∷ [], ok done)
  end_line (bytes, err e) = (bytes, err e)
  end_line (bytes, panic) = (bytes, panic)

  -- `encode`: `serde_json::to_writer` writes the value's text behind what the buffer holds, then
  -- a newline follows. The writer may fail halfway; what it wrote stays.
  unfoldable pub encode : S → Bytes → Bytes × Outcome IoError (Unit {0})
  unfolding end_line
  encode item bytes = end_line (to_writer item bytes)
