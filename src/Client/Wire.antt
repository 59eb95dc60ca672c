-- ===== src/Client/Wire.antt =====
-- `Qapi` of qapi/src/lib.rs: lines of JSON over a stream that the blocking clients share.
-- serde_json and the writer are parameters; the reader is a `BufRead` of which the code sees the
-- bytes to come and how they end.
use qapi_rs.Prelude.{
  ℕ, Option, none, some, [], ◌∷◌, Outcome, ok, err, panic, map_ok, length, ◌==◌, if◌then◌else◌,
}
use qapi_rs.Spec.{IoError, Execute, from_command}
use qapi_rs.Codec.{Bytes}

-- The bytes that are still to be read, and what follows them: the end, or an error.
pub record Reader : Type 0 where
  pub unread : Bytes
  pub ending : Option IoError

-- A writer, with serde_json's serialisation onto it.
pub record Writer (W Item : Type 0) : Type 0 where
  pub serialize : Item → W → W × Outcome IoError (Unit {0})
  pub write : Bytes → W → W × Outcome IoError ℕ
  pub flush : W → W × Outcome IoError (Unit {0})

-- `mod stream`'s `Stream`, both halves of a connection, inside `Qapi`.
pub record Qapi (W : Type 0) : Type 0 where
  pub r : Reader
  pub w : W
  pub buffer : Bytes

-- `Qapi::new`
abbrev pub new : {W : Type 0} → Reader → W → Qapi W
new r w = record { r = r; w = w; buffer = [] }

-- A line with its delimiter and what follows it, or all the bytes if it is not among them.
pub data Split : Type 0 where
  found : Bytes → Bytes → Split
  missing : Bytes → Split

unfoldable pub onto : ℕ → Split → Split
onto c (found line rest) = found (c ∷ line) rest
onto c (missing line) = missing (c ∷ line)

unfoldable pub split_line : ℕ → Bytes → Split
unfolding onto
split_line d [] = missing []
split_line d (c ∷ cs) = if c == d then found (c ∷ []) cs else onto c (split_line d cs)

-- `BufRead::read_until`: what it appends to the buffer, the reader that it leaves, and its count.
unfoldable pub at_split : Reader → Split → Bytes × Reader × Outcome IoError ℕ
at_split r (found line rest) = (line, record r { unread = rest }, ok (length line))
at_split r (missing line) = elim r.ending [
  | none ↦ (line, record r { unread = [] }, ok (length line))
  | some e ↦ (line, record r { unread = [] }, err e)
]

unfoldable pub read_until : ℕ → Reader → Bytes × Reader × Outcome IoError ℕ
unfolding at_split
read_until d r = at_split r (split_line d r.unread)

-- The line is what the call appended to the cleared buffer; none is the end of the stream.
unfoldable pub parse_line :
    {D : Type 0} → (Bytes → Outcome IoError D) → Bytes → Outcome IoError (Option D)
parse_line from_slice [] = ok none
parse_line from_slice (c ∷ cs) = map_ok some (from_slice (c ∷ cs))

module _ {W : Type 0} where
  unfoldable pub after_read :
      {D : Type 0}
      → (Bytes → Outcome IoError D)
      → Qapi W
      → Bytes × Reader × Outcome IoError ℕ
      → Qapi W × Outcome IoError (Option D)
  after_read from_slice q (buffer, r, ok n) =
      (record q { r = r; buffer = buffer }, parse_line from_slice buffer)
  after_read from_slice q (buffer, r, err e) = (record q { r = r; buffer = buffer }, err e)
  after_read from_slice q (buffer, r, panic) = (record q { r = r; buffer = buffer }, panic)

  -- `Qapi::decode_line`; `from_slice` is serde_json's, its errors turned into I/O errors.
  unfoldable pub decode_line :
      {D : Type 0} → (Bytes → Outcome IoError D) → Qapi W → Qapi W × Outcome IoError (Option D)
  unfolding parse_line after_read
  decode_line from_slice q = after_read from_slice q (read_until b'\n' q.r)

  module _ {Item : Type 0} (x : Writer W Item) where
    -- The `?` after a step of writing.
    unfoldable pub then_write :
        {A B : Type 0} → W × Outcome IoError A → (W → W × Outcome IoError B) → W × Outcome IoError B
    then_write (w, ok a) k = k w
    then_write (w, err e) k = (w, err e)
    then_write (w, panic) k = (w, panic)

    -- `Qapi::encode_line`: the value, a newline (the count of `write` is ignored), a flush.
    unfoldable pub encode_line : Item → W → W × Outcome IoError (Unit {0})
    unfolding then_write
    encode_line item w =
        then_write (x.serialize item w)
          λ w'. then_write (x.write (b'\n' ∷ []) w') λ w''. x.flush w''

  -- `Qapi::write_command`: the command without an id, as a line. What is traced is not modelled.
  abbrev pub write_command :
      {Args I : Type 0}
      → Writer W (Execute Args I)
      → Args
      → Qapi W
      → Qapi W × Outcome IoError (Unit {0})
  write_command x args q =
      let (w, r) = encode_line x (from_command args) q.w in (record q { w = w }, r)
