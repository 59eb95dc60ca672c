-- ===== src/Tests/Bytes.antt =====
-- The byte routines of `memchr` and `bytes`, as executable stand-ins, and a reader of values that
-- takes a line as it is.
use qapi_rs.Prelude.{
  ℕ, suc, ◌≡◌, ◌≢◌, refl, Option, none, some, [], ◌∷◌, ◌++◌, ok, panic, arith, length, take, drop,
  take-append_length, drop-append_length, ◌==◌, if◌then◌else◌,
}
use qapi_rs.Spec.{IoError}
use qapi_rs.Codec.{Bytes, Absent, ByteOps, IsDocumented, Json, parse}

abbrev next_place : Option ℕ → Option ℕ
next_place none = none
next_place (some n) = some (suc n)

abbrev memchr : ℕ → Bytes → Option ℕ
memchr b [] = none
memchr b (c ∷ cs) = if c == b then some 0 else next_place (memchr b cs)

abbrev pub bytes : ByteOps
bytes = record { memchr = memchr; split_to = λ n s. (take n s, drop n s) }

memchr-hit :
    (b : ℕ) (before after : Bytes)
    → Absent b before
    → memchr b (before ++ b ∷ after) ≡ some (length before)
memchr-hit b [] after a = ground arith
memchr-hit b (c ∷ cs) after a = rw (memchr-hit b cs after a.1) (ground (arith, a.0))

memchr-miss : (b : ℕ) (s : Bytes) → Absent b s → memchr b s ≡ none
memchr-miss b [] a = refl
memchr-miss b (c ∷ cs) a = rw (memchr-miss b cs a.1) (ground (arith, a.0))

pub bytes-IsDocumented : IsDocumented bytes
bytes-IsDocumented = record {
  memchr_hit = memchr-hit;
  memchr_miss = memchr-miss;
  split_to_at = λ front back. cc (take-append_length front back, drop-append_length front back);
}

-- A value is the text of its line.
abbrev pub line_json : Json Bytes
line_json = record { JsonError = IoError; from_slice = λ s. ok s; io_error = λ e. e }

pub line_json-total : (s : Bytes) → parse bytes line_json s ≢ panic
line_json-total s e = cc
