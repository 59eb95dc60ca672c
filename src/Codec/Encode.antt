-- ===== src/Codec/Encode.antt =====
-- `encode` of qapi/src/futures/codec.rs against the decoder: what one side writes, the other reads.
use mathlib.Core.List.{append_assoc, append-nil}
use qapi_rs.Prelude.{
  ◌≡◌, refl, sym, ap, ◌∙◌, ◌≢◌, List, [], ◌∷◌, ◌++◌, map, Outcome, ok, panic, All, All-intro, any,
  false,
}
use qapi_rs.Spec.{IoError}
use qapi_rs.Codec.{Bytes, Absent, ByteOps, IsDocumented, Json, parse, encode, new}
use qapi_rs.Codec.Scan.{scan, scan_line}
use qapi_rs.Codec.Feed.{flat, is_failure, feed, feed-IsCut, feed_chunks}

any-ok : {S : Type 0} (ss : List S) → any (is_failure {D = S}) (map ok ss) ≡ false
any-ok [] = refl
any-ok (s ∷ ss) = any-ok ss

-- Items encoded one after the other into one buffer; the first failure ends the run.
module _ {S : Type 0} (to_writer : S → Bytes → Bytes × Outcome IoError (Unit {0})) where
  unfoldable pub encode_all : List S → Bytes → Bytes
  encode_all [] bytes = bytes
  encode_all (s ∷ ss) bytes = encode_all ss (encode to_writer s bytes).0

  -- serde_json's compact writer appends a value's text, which has no raw newline in it.
  pub record Writes (text : S → Bytes) : Type 0 where
    pub appends : (s : S) (bytes : Bytes) → to_writer s bytes ≡ (bytes ++ text s, ok tt)
    pub one_line : (s : S) → Absent b'\n' (text s)

  module _ (text : S → Bytes) (w : Writes text) where
    abbrev lines : List S → Bytes
    lines [] = []
    lines (s ∷ ss) = text s ++ b'\n' ∷ lines ss

    encode_all-lines : (ss : List S) (bytes : Bytes) → encode_all ss bytes ≡ bytes ++ lines ss
    unfolding encode_all encode
    encode_all-lines [] bytes = sym (append-nil bytes)
    encode_all-lines (s ∷ ss) bytes =
        rw (w.appends s bytes, encode_all-lines ss ((bytes ++ text s) ++ b'\n' ∷ []))
          (simp append_assoc)

    scan-lines : (ss : List S) → scan (lines ss) ≡ (map (λ s. text s ++ b'\n' ∷ []) ss, [])
    unfolding scan
    scan-lines [] = refl
    scan-lines (s ∷ ss) = rw (scan_line (text s) (lines ss) (w.one_line s), scan-lines ss)

    parse-lines :
        (x : ByteOps) (json : Json S) (ss : List S)
        → All (λ s. json.from_slice (text s ++ b'\n' ∷ []) ≡ ok s) ss
        → map (parse x json) (map (λ s. text s ++ b'\n' ∷ []) ss) ≡ map ok ss
    parse-lines x json [] back = refl
    parse-lines x json (s ∷ ss) back = rw (back.0, parse-lines x json ss back.1)

    -- Items that the JSON reader gives back, each from its own text.
    pub feed-encode_listed :
        (x : ByteOps) (json : Json S)
        → IsDocumented x
        → ((line : Bytes) → parse x json line ≢ panic)
        → (ss : List S) → All (λ s. json.from_slice (text s ++ b'\n' ∷ []) ≡ ok s) ss
        → (chunks : List Bytes) → flat chunks ≡ encode_all ss []
        → ((feed x json new [] chunks).frames ≡ map ok ss) × ((feed x json new [] chunks).buf ≡ [])
    feed-encode_listed x json doc total ss back chunks e =
        let stream : flat chunks ≡ lines ss = e ∙ encode_all-lines ss [] in
        let read = (feed_chunks x json doc total chunks).0 in
        let frames =
          ap (λ d. d.frames) read
          ∙ ap (λ (b : Bytes). map (parse x json) (scan b).0) stream
          ∙ rw (scan-lines ss) (parse-lines x json ss back) in
        let whole = (feed-IsCut x json chunks new []).2 (rw frames (any-ok ss)) in
        (
          ap (λ d. d.frames) whole ∙ frames,
          ap (λ d. d.buf) (whole ∙ read)
              ∙ ap (λ (b : Bytes). (scan b).1) stream
              ∙ rw (scan-lines ss),
        )

    -- What one side encodes the other decodes: for any items, and any way in which the socket cuts
    -- their bytes, a new codec gives the items back in order and holds nothing back. The JSON
    -- writer appends a text without a line feed, the JSON reader gives each item back from its
    -- text and never panics, and the byte routines behave as documented.
    pub feed-encode_all :
        (x : ByteOps) (json : Json S)
        → IsDocumented x
        → ((line : Bytes) → parse x json line ≢ panic)
        → ((s : S) → json.from_slice (text s ++ b'\n' ∷ []) ≡ ok s)
        → (ss : List S) (chunks : List Bytes) → flat chunks ≡ encode_all ss []
        → ((feed x json new [] chunks).frames ≡ map ok ss) × ((feed x json new [] chunks).buf ≡ [])
    feed-encode_all x json doc total back ss =
        feed-encode_listed x json doc total ss (All-intro back ss)
