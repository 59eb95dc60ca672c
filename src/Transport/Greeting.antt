-- ===== src/Transport/Greeting.antt =====
-- `QmpStreamTokio::open_split` of qapi/src/futures/tokio.rs: what becomes of the bytes that the
-- socket gives, from the greeting on.
use mathlib.Core.List.{append_assoc, append-nil}
use qapi_rs.Prelude.{
  ◌≡◌, ◌≢◌, refl, sym, ap, ◌∙◌, subst, List, [], ◌∷◌, ◌++◌, map, none, some, Outcome, ok, err,
  panic, map_ok, inl, inr, Option, length,
}
use qapi_rs.Spec.{IoError}
use qapi_rs.Codec
use qapi_rs.Codec.{
  Bytes, Absent, ByteOps, IsDocumented, Json, Decoded, parse, priv_decode, priv_decode_eof,
}
use qapi_rs.Codec.Scan.{scan}
use qapi_rs.Codec.Decode.{
  IsSearched, IsSearched-append, start-IsSearched, whole-IsSearched, priv_decode_first_line,
}
use qapi_rs.Codec.Feed.{up_to_failure, flat, feed, feed_chunks}
use qapi_rs.Qmp.{QapiCapabilities, supports_oob, supports_oob-capabilities}
use qapi_rs.Futures.Shared as Shared
use qapi_rs.Transport.{Framed, framed}
use qapi_rs.Transport.Qmp.{Opened, opened, after_greeting, open_split, hand_over}

-- A socket, by the chunks that it is still going to give.
abbrev pub Socket : Type 0
Socket = List Bytes

Absent-line : (line rest : Bytes) → Absent b'\n' (line ++ b'\n' ∷ rest) → ⊥
Absent-line [] rest a = a.0 refl
Absent-line (c ∷ line) rest a = Absent-line line rest a.1

-- A line ends at one place only.
line_unique :
    (s t a b : Bytes)
    → Absent b'\n' s
    → Absent b'\n' t
    → s ++ b'\n' ∷ a ≡ t ++ b'\n' ∷ b
    → (s ≡ t) × (a ≡ b)
line_unique [] [] a b h k e = (refl, cc)
line_unique [] (c ∷ t) a b h k e = absurd (k.0 cc)
line_unique (c ∷ s) [] a b h k e = absurd (h.0 cc)
line_unique (c ∷ s) (d ∷ t) a b h k e =
    let later = line_unique s t a b h.1 k.1 cc in
    let first : c ≡ d = cc in (rw (first, later.0), later.1)

module _ {D : Type 0} where
  -- The frame that a call has given.
  abbrev given : Outcome IoError (Option D) → Outcome IoError D
  given (ok none) = panic
  given (ok (some v)) = ok v
  given (err e) = err e
  given panic = panic

  given-map_ok : (r : Outcome IoError D) → given (map_ok some r) ≡ r
  given-map_ok (ok v) = refl
  given-map_ok (err e) = refl
  given-map_ok panic = refl

  map_ok-some_injective : (r s : Outcome IoError D) → map_ok some r ≡ map_ok some s → r ≡ s
  map_ok-some_injective r s e = sym (given-map_ok r) ∙ ap given e ∙ given-map_ok s

  map_ok-some-none : (r : Outcome IoError D) → map_ok some r ≢ ok none
  map_ok-some-none (ok v) e = cc
  map_ok-some-none (err f) e = cc
  map_ok-some-none panic e = cc

module _ {G : Type 0} (x : ByteOps) (json : Json G) where
  -- What tokio-util's documentation says of the next frame of a stream: `decode` is called on what
  -- has been read, and as long as it asks for more, a chunk of the socket is put behind that;
  -- at the end of the socket `decode_eof` is called instead.
  pub data Polled : Framed Socket → Framed Socket → Outcome IoError G → Type 0 where
    decoded :
        (f : Framed Socket) (d : Decoded G) (frame : Outcome IoError G)
        → priv_decode x json f.codec f.read_buf ≡ d
        → d.frame ≡ map_ok some frame
        → Polled f (record { io = f.io; codec = d.codec; read_buf = d.buf }) frame
    more :
        (f g : Framed Socket) (d : Decoded G) (chunk : Bytes) (chunks : Socket)
        (frame : Outcome IoError G)
        → priv_decode x json f.codec f.read_buf ≡ d
        → d.frame ≡ ok none
        → f.io ≡ chunk ∷ chunks
        → Polled (record { io = chunks; codec = d.codec; read_buf = d.buf ++ chunk }) g frame
        → Polled f g frame
    ended :
        (f : Framed Socket) (d e : Decoded G) (frame : Outcome IoError G)
        → priv_decode x json f.codec f.read_buf ≡ d
        → d.frame ≡ ok none
        → f.io ≡ []
        → priv_decode_eof x json d.codec d.buf ≡ e
        → e.frame ≡ map_ok some frame
        → Polled f (record { io = []; codec = e.codec; read_buf = e.buf }) frame

  -- What is still to come of a framed socket's bytes.
  abbrev unread_bytes : Framed Socket → Bytes
  unread_bytes f = f.read_buf ++ flat f.io

  -- The frame is the first line, and what is left of the bytes is behind it.
  record TakesLine (f g : Framed Socket) (frame : Outcome IoError G) : Type 0 where
    pub before : Bytes
    pub absent : Absent b'\n' before
    pub splits : unread_bytes f ≡ before ++ b'\n' ∷ unread_bytes g
    pub parses : frame ≡ parse x json (before ++ b'\n' ∷ [])

  module _ (doc : IsDocumented x) where
    Polled-TakesLine :
        (f g : Framed Socket) (frame : Outcome IoError G) (line rest : Bytes)
        → unread_bytes f ≡ line ++ b'\n' ∷ rest
        → IsSearched f.codec f.read_buf
        → Polled f g frame
        → TakesLine f g frame
    Polled-TakesLine f g frame line rest u s (decoded _ d _ e h) =
        elim (priv_decode_first_line x json doc f.codec f.read_buf s) [
          | inl (a, w) ↦
              let waits : d.frame ≡ ok none = ap (λ (c : Decoded G). c.frame) (sym e ∙ w) in
              absurd (map_ok-some-none frame (sym h ∙ waits))
          | inr (before, after, a, sp, y) ↦
              let same = sym e ∙ y in
              let left : d.buf ≡ after = ap (λ (c : Decoded G). c.buf) same in
              record {
                before = before;
                absent = a;
                splits = rw (sp, left) (append_assoc before (b'\n' ∷ after) (flat f.io));
                parses =
                    map_ok-some_injective frame (parse x json (before ++ b'\n' ∷ []))
                      (sym h ∙ ap (λ (c : Decoded G). c.frame) same);
              }
        ]
    Polled-TakesLine f g frame line rest u s (more _ _ d chunk chunks _ e h i p) =
        elim (priv_decode_first_line x json doc f.codec f.read_buf s) [
          | inl (a, w) ↦
              let same = sym e ∙ w in
              let left : d.buf ≡ f.read_buf = ap (λ (c : Decoded G). c.buf) same in
              let searched =
                whole-IsSearched d.codec d.buf
                  (ap (λ (c : Decoded G). c.codec.next_index) same ∙ ap length (sym left))
                  (rw left a) in
              let same_bytes : unread_bytes f ≡ (d.buf ++ chunk) ++ flat chunks =
                rw (i, left) (sym (append_assoc f.read_buf chunk (flat chunks))) in
              let later =
                Polled-TakesLine _ g frame line rest (sym same_bytes ∙ u)
                  (IsSearched-append d.buf chunk searched) p in
              record {
                before = later.before;
                absent = later.absent;
                splits = same_bytes ∙ later.splits;
                parses = later.parses;
              }
          | inr (before, after, a, sp, y) ↦ absurd (
              map_ok-some-none (parse x json (before ++ b'\n' ∷ []))
                (sym (ap (λ (c : Decoded G). c.frame) (sym e ∙ y)) ∙ h))
        ]
    Polled-TakesLine f g frame line rest u s (ended _ d e _ p h i q j) =
        elim (priv_decode_first_line x json doc f.codec f.read_buf s) [
          | inl (a, w) ↦ absurd (
              Absent-line line rest (
                subst (Absent b'\n')
                  (sym (append-nil f.read_buf)
                    ∙ ap (λ (l : Socket). f.read_buf ++ flat l) (sym i)
                    ∙ u)
                  a))
          | inr (before, after, a, sp, y) ↦ absurd (
              map_ok-some-none (parse x json (before ++ b'\n' ∷ []))
                (sym (ap (λ (c : Decoded G). c.frame) (sym p ∙ y)) ∙ h))
        ]

module _ {W Any VersionInfo M : Type 0} (x : ByteOps) (doc : IsDocumented x)
    (json : Json (QapiCapabilities Any VersionInfo)) (messages : Json M)
    (total : (s : Bytes) → parse x messages s ≢ panic)
    (next : Framed Socket
      → Framed Socket × Option (Outcome IoError (QapiCapabilities Any VersionInfo)))
    (polls : (f g : Framed Socket) (frame : Outcome IoError (QapiCapabilities Any VersionInfo))
      → next f ≡ (g, some frame)
      → Polled x json f g frame) where
  after_greeting-ok :
      (write : W) (t : Framed Socket × Option (Outcome IoError (QapiCapabilities Any VersionInfo)))
      (o : Opened Socket W Any VersionInfo)
      → after_greeting write t ≡ ok o
      → (greeting : QapiCapabilities Any VersionInfo) × (t ≡ (t.0, some (ok greeting)))
        × (opened write t.0 greeting ≡ o)
  unfolding after_greeting
  after_greeting-ok write (f, none) o e = cc
  after_greeting-ok write (f, some (err g)) o e = cc
  after_greeting-ok write (f, some panic) o e = cc
  after_greeting-ok write (f, some (ok g)) o e = (g, refl, cc)

  -- However the socket cuts its bytes into chunks: if they start with a complete line and
  -- `open_split` succeeds, then the greeting is that line, parsed; the reading half
  -- delivers the complete lines behind it, parsed as messages, in order and none read twice, also
  -- those that came in one chunk with the greeting: all of them if all parse, and otherwise those up
  -- to the first that does not, whose error is the last frame; and the client runs with ids exactly
  -- if the greeting says that out-of-band execution is there. tokio-util and the byte routines
  -- behave as documented, and the reader of messages does not panic.
  pub greeting_hand_over :
      (chunks : Socket) (write : W) (line rest : Bytes) (o : Opened Socket W Any VersionInfo)
      → flat chunks ≡ line ++ b'\n' ∷ rest
      → Absent b'\n' line
      → open_split next chunks write ≡ ok o
      → let f = o.stream.events.stream.stream in
        (parse x json (line ++ b'\n' ∷ []) ≡ ok o.capabilities)
        × (up_to_failure (map (parse x messages) (scan rest).0)
            ≡ (feed x messages f.codec [] (f.read_buf ∷ f.io)).frames)
        × (o.stream.service.shared.supports_oob ≡ supports_oob o.capabilities)
  unfolding open_split opened hand_over framed Codec.new Shared.new
  greeting_hand_over chunks write line rest o u a e =
      let g = (next (framed chunks)).0 in
      let (greeting, got, same) = after_greeting-ok write (next (framed chunks)) o e in
      let p = polls (framed chunks) (next (framed chunks)).0 (ok greeting) got in
      let t =
        Polled-TakesLine x json doc (framed chunks) (next (framed chunks)).0 (ok greeting) line rest
          u (start-IsSearched []) p in
      let (lines, rests) = line_unique t.before line _ rest t.absent a (sym t.splits ∙ u) in
      rw (← same) (
        rw (← lines) (sym t.parses),
        rw (← rests) (sym (feed_chunks x messages doc total (g.read_buf ∷ g.io)).1),
        supports_oob-capabilities greeting,
      )
