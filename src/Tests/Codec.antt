-- ===== src/Tests/Codec.antt =====
-- Runs of the codec of qapi/src/futures/codec.rs.
use qapi_rs.Prelude.{
  ◌≡◌, ◌≢◌, refl, some, List, [], ◌∷◌, ◌++◌, Outcome, ok, panic, arith, Bool, true, false, ◌==◌,
}
use qapi_rs.Spec.{IoError}
use qapi_rs.Codec.{Bytes, Absent, Json, parse, priv_decode, encode, new}
use qapi_rs.Codec.Bounds.{StaysIn, priv_decode_in_bounds}
use qapi_rs.Codec.Scan.{scan}
use qapi_rs.Codec.Feed.{decode_all, feed, feed_chunks, eof_calls, eof_calls_repeat}
use qapi_rs.Codec.Encode.{Writes, encode_all, feed-encode_all}
use qapi_rs.Tests.Bytes.{bytes, bytes-IsDocumented, line_json, line_json-total}

abbrev chunks : List Bytes
chunks = (b'1' ∷ []) ∷ (b'2' ∷ b'\n' ∷ b'3' ∷ []) ∷ (b'\n' ∷ b'\n' ∷ b'4' ∷ []) ∷ []

feed_chunks_example :
    (decode_all bytes line_json new [] chunks ≡ record {
      frames = ok (b'1' ∷ b'2' ∷ b'\n' ∷ []) ∷ ok (b'3' ∷ b'\n' ∷ []) ∷ ok (b'\n' ∷ []) ∷ [];
      codec = record { next_index = 1 };
      buf = b'4' ∷ [];
    })
    × ((feed bytes line_json new [] chunks).frames
        ≡ ok (b'1' ∷ b'2' ∷ b'\n' ∷ []) ∷ ok (b'3' ∷ b'\n' ∷ []) ∷ ok (b'\n' ∷ []) ∷ [])
unfolding scan
feed_chunks_example = feed_chunks bytes line_json bytes-IsDocumented line_json-total chunks

eof_calls_repeat_example :
    eof_calls bytes line_json 2 new (b'1' ∷ []) ≡ ok (some (b'1' ∷ [])) ∷ ok (some (b'1' ∷ [])) ∷ []
eof_calls_repeat_example = eof_calls_repeat bytes line_json 2 new b'1' []

-- Two values, written as one digit.
abbrev digit : Bool → Bytes
digit true = b'1' ∷ []
digit false = b'0' ∷ []

abbrev to_writer : Bool → Bytes → Bytes × Outcome IoError (Unit {0})
to_writer b buf = (buf ++ digit b, ok tt)

abbrev from_slice : Bytes → Outcome IoError Bool
from_slice [] = ok false
from_slice (c ∷ cs) = ok (c == b'1')

abbrev digit_json : Json Bool
digit_json = record { JsonError = IoError; from_slice = from_slice; io_error = λ e. e }

to_writer-Writes : Writes to_writer digit
to_writer-Writes = record { appends = λ s buf. refl; one_line = digit-Absent }
  where
    digit-Absent : (b : Bool) → Absent b'\n' (digit b)
    digit-Absent true = (ground arith, tt)
    digit-Absent false = (ground arith, tt)

digit_json-total : (s : Bytes) → parse bytes digit_json s ≢ panic
digit_json-total [] e = cc
digit_json-total (c ∷ cs) e = cc

digit_json-back : (b : Bool) → from_slice (digit b ++ b'\n' ∷ []) ≡ ok b
digit_json-back true = refl
digit_json-back false = refl

feed-encode_all_example :
    ((feed bytes digit_json new [] ((b'1' ∷ []) ∷ (b'\n' ∷ b'0' ∷ b'\n' ∷ []) ∷ [])).frames
      ≡ ok true ∷ ok false ∷ [])
    × ((feed bytes digit_json new [] ((b'1' ∷ []) ∷ (b'\n' ∷ b'0' ∷ b'\n' ∷ []) ∷ [])).buf ≡ [])
unfolding encode_all encode
feed-encode_all_example =
    feed-encode_all to_writer digit to_writer-Writes bytes digit_json bytes-IsDocumented
      digit_json-total digit_json-back (true ∷ false ∷ [])
      ((b'1' ∷ []) ∷ (b'\n' ∷ b'0' ∷ b'\n' ∷ []) ∷ []) refl

priv_decode_in_bounds_example :
    StaysIn bytes line_json
      (b'1' ∷ b'\n' ∷ b'2' ∷ [])
      (priv_decode bytes line_json (record { next_index = 2 }) (b'1' ∷ b'\n' ∷ b'2' ∷ []))
priv_decode_in_bounds_example =
    priv_decode_in_bounds bytes line_json bytes-IsDocumented line_json-total
      (record { next_index = 2 }) (b'1' ∷ b'\n' ∷ b'2' ∷ []) (omega arith)
