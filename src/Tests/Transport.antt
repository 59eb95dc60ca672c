-- ===== src/Tests/Transport.antt =====
-- A run of `open_split` on a socket whose first chunk ends inside of the line behind the greeting.
use qapi_rs.Prelude.{
  ℕ, ◌≡◌, refl, ap, subst, ◌⊎◌, inl, inr, Option, none, some, [], ◌∷◌, ◌++◌, Outcome, ok, err,
  panic, map_ok, arith, ◌==◌, if◌then◌else◌,
}
use qapi_rs.Spec.{IoError}
use qapi_rs.Codec
use qapi_rs.Codec.{Bytes, Absent, Json, Decoded, parse, priv_decode, priv_decode_eof}
use qapi_rs.Codec.Scan.{scan}
use qapi_rs.Codec.Feed.{feed}
use qapi_rs.Qmp.{QapiCapabilities, out_of_band, supports_oob}
use qapi_rs.Transport.{Framed, framed}
use qapi_rs.Transport.Qmp.{Opened, open_split, opened, hand_over}
use qapi_rs.Transport.Greeting.{Socket, Polled, decoded, more, ended, greeting_hand_over}
use qapi_rs.Tests.Bytes.{bytes, bytes-IsDocumented, line_json, line_json-total}

-- The greeting is one letter: whether out-of-band execution is there.
abbrev Greeting : Type 0
Greeting = QapiCapabilities ℕ (Unit {0})

abbrev letter : Bytes → Outcome IoError Greeting
letter [] = panic
letter (c ∷ cs) = ok (record {
  qmp = record { version = tt; capabilities = if c == b'o' then out_of_band ∷ [] else [] };
})

abbrev greeting_json : Json Greeting
greeting_json = record { JsonError = IoError; from_slice = letter; io_error = λ e. e }

abbrev Answer : Type 0
Answer = Framed Socket × Option (Outcome IoError Greeting)

abbrev on_frame : Outcome IoError (Option Greeting) → Framed Socket → Answer → Answer
on_frame (ok none) f later = later
on_frame (ok (some v)) f later = (f, some (ok v))
on_frame (err e) f later = (f, some (err e))
on_frame panic f later = (f, some panic)

on_frame-cases :
    (r : Outcome IoError (Option Greeting)) (f g : Framed Socket) (later : Answer)
    (frame : Outcome IoError Greeting)
    → on_frame r f later ≡ (g, some frame)
    → ((r ≡ map_ok some frame) × (f ≡ g)) ⊎ ((r ≡ ok none) × (later ≡ (g, some frame)))
on_frame-cases (ok none) f g later frame e = inr (refl, e)
on_frame-cases (ok (some v)) f g later frame e =
    let same : ok v ≡ frame = cc in inl (ap (map_ok some) same, cc)
on_frame-cases (err x) f g later frame e =
    let same : err x ≡ frame = cc in inl (ap (map_ok some) same, cc)
on_frame-cases panic f g later frame e =
    let same : panic ≡ frame = cc in inl (ap (map_ok some) same, cc)

abbrev at_end : Decoded Greeting → Answer
at_end d =
    let e = priv_decode_eof bytes greeting_json d.codec d.buf in
    let f : Framed Socket = record { io = []; codec = e.codec; read_buf = e.buf } in
    on_frame e.frame f (f, none)

abbrev left_at : Socket → Decoded Greeting → Framed Socket
left_at io d = record { io = io; codec = d.codec; read_buf = d.buf }

next_from : Socket → Codec.JsonLinesCodec → Bytes → Answer
next_from [] c buf =
    let d = priv_decode bytes greeting_json c buf in on_frame d.frame (left_at [] d) (at_end d)
next_from (chunk ∷ chunks) c buf =
    let d = priv_decode bytes greeting_json c buf in
    on_frame d.frame (left_at (chunk ∷ chunks) d) (next_from chunks d.codec (d.buf ++ chunk))

abbrev next : Framed Socket → Answer
unfolding next_from
next f = next_from f.io f.codec f.read_buf

next_from-Polled :
    (io : Socket) (c : Codec.JsonLinesCodec) (buf : Bytes) (g : Framed Socket)
    (frame : Outcome IoError Greeting)
    → next_from io c buf ≡ (g, some frame)
    → Polled bytes greeting_json (record { io = io; codec = c; read_buf = buf }) g frame
unfolding next_from
next_from-Polled [] c buf g frame e =
    let f : Framed Socket = record { io = []; codec = c; read_buf = buf } in
    let d = priv_decode bytes greeting_json c buf in
    elim (on_frame-cases d.frame (left_at [] d) g (at_end d) frame e) [
      | inl (r, same) ↦
          subst (λ (h : Framed Socket). Polled bytes greeting_json f h frame) same
            (decoded f d frame refl r)
      | inr (r, later) ↦
          let d' = priv_decode_eof bytes greeting_json d.codec d.buf in
          elim (on_frame-cases d'.frame (left_at [] d') g (left_at [] d', none) frame later) [
            | inl (q, same) ↦
                subst (λ (h : Framed Socket). Polled bytes greeting_json f h frame) same
                  (ended f d d' frame refl r refl refl q)
            | inr (q, never) ↦ cc
          ]
    ]
next_from-Polled (chunk ∷ chunks) c buf g frame e =
    let f : Framed Socket = record { io = chunk ∷ chunks; codec = c; read_buf = buf } in
    let d = priv_decode bytes greeting_json c buf in
    elim (on_frame-cases d.frame (left_at (chunk ∷ chunks) d) g
      (next_from chunks d.codec (d.buf ++ chunk)) frame e) [
        | inl (r, same) ↦
            subst (λ (h : Framed Socket). Polled bytes greeting_json f h frame) same
              (decoded f d frame refl r)
        | inr (r, later) ↦
            more f g d chunk chunks frame refl r refl
              (next_from-Polled chunks d.codec (d.buf ++ chunk) g frame later)
      ]

abbrev chunks : Socket
chunks = (b'o' ∷ b'\n' ∷ b'1' ∷ []) ∷ (b'\n' ∷ b'2' ∷ []) ∷ []

abbrev greeting : Greeting
greeting = record { qmp = record { version = tt; capabilities = out_of_band ∷ [] } }

abbrev handed : Framed Socket
handed = record {
  io = (b'\n' ∷ b'2' ∷ []) ∷ [];
  codec = record { next_index = 0 };
  read_buf = b'1' ∷ [];
}

abbrev negotiation : Opened Socket ℕ ℕ (Unit {0})
unfolding opened
negotiation = opened 7 handed greeting

run : open_split next chunks 7 ≡ ok negotiation
unfolding open_split next next_from negotiation opened framed hand_over Codec.new priv_decode
    Codec.slice_from Codec.take_line
run = refl

greeting_hand_over_example :
    let f = negotiation.stream.events.stream.stream in
    (parse bytes greeting_json (b'o' ∷ b'\n' ∷ []) ≡ ok greeting)
    × (ok (b'1' ∷ b'\n' ∷ []) ∷ [] ≡ (feed bytes line_json f.codec [] (f.read_buf ∷ f.io)).frames)
    × (negotiation.stream.service.shared.supports_oob ≡ supports_oob greeting)
unfolding scan next next_from negotiation
greeting_hand_over_example =
    greeting_hand_over bytes bytes-IsDocumented greeting_json line_json line_json-total next
      (λ f g frame e. next_from-Polled f.io f.codec f.read_buf g frame e) chunks 7 (b'o' ∷ [])
      (b'1' ∷ b'\n' ∷ b'2' ∷ []) negotiation refl (ground arith, tt) run
