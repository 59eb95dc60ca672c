-- ===== src/Client/Handshake.antt =====
-- `Qmp::handshake` of qapi/src/lib.rs over a whole session: the greeting, the command that leaves
-- negotiation mode, and its reply behind the lines of events.
use qapi_rs.Prelude.{
  ℕ, zero, suc, ◌≡◌, refl, ◌∙◌, Option, none, some, List, [], ◌∷◌, ◌++◌, Outcome, ok, err, panic,
  map_ok, map_err, length,
}
use qapi_rs.Spec.{IoError, Response, result, Execute, from_command}
use qapi_rs.Qmp.{QmpMessage, event, response, Qmp, QapiCapabilities}
use qapi_rs.Codec.{Bytes, Absent}
use qapi_rs.Client.{ExecuteError, qapi}
use qapi_rs.Client.Wire.{
  Qapi, Reader, Writer, decode_line, after_read, encode_line, then_write, read_until,
}
use qapi_rs.Client.Lines.{decode_line-line}
use qapi_rs.Client.Replies.{text, events_of, EventLines, Answered, read_response_separates}
use qapi_rs.Client.QmpClient.{
  Client, Never, on_line, read_response, set_inner, queue, enough, execute, write_command,
  after_write, after_greeting, read_capabilities, greeting, handshake, map_answer,
}

-- A writer that takes every byte, with the text that the serialiser makes of an item.
pub record IsWriter {Item : Type 0} (x : Writer Bytes Item) (json : Item → Bytes) : Type 0 where
  pub serializes : (item : Item) (w : Bytes) → x.serialize item w ≡ (w ++ json item, ok tt)
  pub writes : (bytes w : Bytes) → x.write bytes w ≡ (w ++ bytes, ok (length bytes))
  pub flushes : (w : Bytes) → x.flush w ≡ (w, ok tt)

pub encode_line-text :
    {Item : Type 0} (x : Writer Bytes Item) (json : Item → Bytes) (item : Item) (w : Bytes)
    → IsWriter x json
    → encode_line x item w ≡ ((w ++ json item) ++ b'\n' ∷ [], ok tt)
unfolding encode_line then_write
encode_line-text x json item w v =
    rw
      (
        v.serializes item w,
        v.writes (b'\n' ∷ []) (w ++ json item),
        v.flushes ((w ++ json item) ++ b'\n' ∷ []),
      )
      refl

module _ {W : Type 0} where
  after_read-w :
      {D : Type 0} (from_slice : Bytes → Outcome IoError D) (q : Qapi W)
      (r : Bytes × Reader × Outcome IoError ℕ)
      → (after_read from_slice q r).0.w ≡ q.w
  unfolding after_read
  after_read-w from_slice q (buffer, r, ok n) = refl
  after_read-w from_slice q (buffer, r, err e) = refl
  after_read-w from_slice q (buffer, r, panic) = refl

  decode_line-w :
      {D : Type 0} (from_slice : Bytes → Outcome IoError D) (q : Qapi W)
      → (decode_line from_slice q).0.w ≡ q.w
  unfolding decode_line
  decode_line-w from_slice q = after_read-w from_slice q (read_until b'\n' q.r)

  module _ {Any Event C : Type 0}
      (from_slice : Bytes → Outcome IoError (QmpMessage Any Event C)) where
    on_line-w :
        (again : Client W Event → Client W Event × Option (Outcome (ExecuteError Any) C))
        (c : Client W Event) (q : Qapi W) (line : Outcome IoError (Option (QmpMessage Any Event C)))
        → ((d : Client W Event) → (again d).0.inner.w ≡ d.inner.w)
        → (on_line from_slice again c (q, line)).0.inner.w ≡ q.w
    unfolding on_line
    on_line-w again c q (ok none) h = refl
    on_line-w again c q (ok (some (event e))) h = h (queue e (set_inner q c))
    on_line-w again c q (ok (some (response r))) h = refl
    on_line-w again c q (err e) h = refl
    on_line-w again c q panic h = refl

    -- Reading a reply writes nothing.
    read_response-w :
        (fuel : ℕ) (c : Client W Event) → (read_response from_slice fuel c).0.inner.w ≡ c.inner.w
    unfolding read_response
    read_response-w zero c = refl
    read_response-w (suc fuel) c =
        on_line-w (read_response from_slice fuel) c (decode_line from_slice c.inner).0
          (decode_line from_slice c.inner).1 (read_response-w fuel)
        ∙ decode_line-w from_slice c.inner

pub map_answer-some :
    {S A B E F : Type 0} (f : Outcome E A → Outcome F B) (p : S × Option (Outcome E A))
    (r : Outcome E A)
    → p.1 ≡ some r
    → map_answer f p ≡ (p.0, some (f r))
unfolding map_answer
map_answer-some f (s, o) r e = rw e refl

-- A command over a writer that takes every byte, whose reply stands on a line of its own behind
-- lines of events: the reply's result is the answer, and all that is written is the command.
module _ {Any Event Args C : Type 0} (x : Writer Bytes (Execute Args Never))
    (json : Execute Args Never → Bytes)
    (from_slice : Bytes → Outcome IoError (QmpMessage Any Event C)) where
  pub execute-Answered :
      (args : Args) (es : List (Bytes × Event)) (line rest : Bytes) (res : Response Any C)
      (c : Client Bytes Event)
      → IsWriter x json
      → EventLines from_slice es
      → Absent b'\n' line
      → from_slice (line ++ b'\n' ∷ []) ≡ ok (response res)
      → c.inner.r.unread ≡ text es ++ (line ++ b'\n' ∷ rest)
      → Answered from_slice c (events_of es) res rest (execute from_slice x args c)
        × ((execute from_slice x args c).0.inner.w
            ≡ (c.inner.w ++ json (from_command args)) ++ b'\n' ∷ [])
  unfolding execute write_command after_write
  execute-Answered args es line rest res c wr v a p u =
      let w = (c.inner.w ++ json (from_command args)) ++ b'\n' ∷ [] in
      let d : Client Bytes Event = set_inner (record (c.inner) { w = w }) c in
      rw (encode_line-text x json (from_command args) c.inner.w wr) (
        read_response_separates from_slice es line rest res d v a p u,
        read_response-w from_slice (enough d) d,
      )

module _ {Any Event Version Args C : Type 0}
    (from_greeting : Bytes → Outcome IoError (QapiCapabilities Any Version))
    (x : Writer Bytes (Execute Args Never)) (json : Execute Args Never → Bytes)
    (qmp_capabilities : Args) (from_slice : Bytes → Outcome IoError (QmpMessage Any Event C)) where
  -- What a session's handshake leaves.
  abbrev Agreed :
      Client Bytes Event
      → Qmp Any Version
      → List Event
      → Response Any C
      → Bytes
      → Client Bytes Event × Option (Outcome (ExecuteError Any) (Qmp Any Version))
      → Type 0
  Agreed c caps es res rest r =
      (r.1 ≡ some (map_ok (λ _. caps) (map_err qapi (result res))))
      × (r.0.event_queue ≡ c.event_queue ++ es)
      × (r.0.inner.r.unread ≡ rest)
      × (r.0.inner.w ≡ (c.inner.w ++ json (from_command qmp_capabilities)) ++ b'\n' ∷ [])

  execute-Agreed :
      (es : List (Bytes × Event)) (line rest : Bytes) (res : Response Any C)
      (caps : Qmp Any Version) (c : Client Bytes Event)
      → IsWriter x json
      → EventLines from_slice es
      → Absent b'\n' line
      → from_slice (line ++ b'\n' ∷ []) ≡ ok (response res)
      → c.inner.r.unread ≡ text es ++ (line ++ b'\n' ∷ rest)
      → Agreed c caps
          (events_of es)
          res
          rest
          (after_greeting from_greeting x qmp_capabilities from_slice (c, ok caps))
  unfolding after_greeting
  execute-Agreed es line rest res caps c wr v a p u =
      let (answer, written) =
        execute-Answered x json from_slice qmp_capabilities es line rest res c wr v a p u in
      rw (map_answer-some (map_ok λ _. caps) (execute from_slice x qmp_capabilities c) _ answer.0)
        (refl, answer.1, answer.2, written)

  -- A peer that sends its greeting, then lines of events, then a reply, each on a line of its
  -- own, and a writer that takes every byte: the handshake gives the greeting back, or the reply's
  -- error; all that it writes is the text of its command and a line feed; the events stand in the
  -- queue in the order in which they came, behind those that were there; the bytes behind the reply
  -- are left.
  pub handshake_agrees :
      (es : List (Bytes × Event)) (greet line rest : Bytes) (res : Response Any C)
      (caps : QapiCapabilities Any Version) (c : Client Bytes Event)
      → IsWriter x json
      → Absent b'\n' greet
      → from_greeting (greet ++ b'\n' ∷ []) ≡ ok caps
      → EventLines from_slice es
      → Absent b'\n' line
      → from_slice (line ++ b'\n' ∷ []) ≡ ok (response res)
      → c.inner.r.unread ≡ greet ++ b'\n' ∷ (text es ++ (line ++ b'\n' ∷ rest))
      → Agreed c caps.qmp
          (events_of es)
          res
          rest
          (handshake from_greeting x qmp_capabilities from_slice c)
  unfolding handshake read_capabilities greeting
  handshake_agrees es greet line rest res caps c wr g h v a p u =
      let later = text es ++ (line ++ b'\n' ∷ rest) in
      let q : Qapi Bytes = record (c.inner) {
        r = record (c.inner.r) { unread = later };
        buffer = greet ++ b'\n' ∷ [];
      } in
      rw (decode_line-line from_greeting c.inner greet later u g, h)
        (execute-Agreed es line rest res caps.qmp (set_inner q c) wr v a p refl)
