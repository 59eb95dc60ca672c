-- ===== src/Client/QmpClient.antt =====
-- `qmp_impl` of qapi/src/lib.rs: the blocking QMP client. Events that arrive while a reply is
-- awaited are queued. The loop of `read_response` runs on fuel; `none` means that it ran out.
use qapi_rs.Prelude.{
  ℕ, zero, suc, Option, none, some, List, [], ◌∷◌, ◌++◌, Outcome, ok, err, panic, map_ok, map_err,
  length,
}
use qapi_rs.Spec.{IoError, ErrorKind, result, Execute}
pub use qapi_rs.Spec.{Never}
use qapi_rs.Qmp.{QmpMessage, event, response, Qmp, QapiCapabilities}
use qapi_rs.Codec.{Bytes}
use qapi_rs.Client.{ExecuteError, qapi, io, io_error_of_execute}
use qapi_rs.Client.Wire
use qapi_rs.Client.Wire.{Reader, Qapi, Writer, decode_line, encode_line}

-- The struct `Qmp`.
pub record Client (W Event : Type 0) : Type 0 where
  pub inner : Qapi W
  pub event_queue : List Event

abbrev unexpected_eof : IoError
unexpected_eof = record { kind = ErrorKind.unexpected_eof; message = "expected command response" }

-- Rounds enough for the reply: one for each byte to come, and one for the end.
abbrev pub enough : {W Event : Type 0} → Client W Event → ℕ
enough c = suc (length c.inner.r.unread)

module _ {W Event : Type 0} where
  -- `Qmp::new`
  abbrev pub new : Qapi W → Client W Event
  new inner = record { inner = inner; event_queue = [] }

  -- `from_stream`: `buffered` is a `BufReader` over a clone of the socket.
  abbrev from_stream : (W → Reader) → W → Client W Event
  from_stream buffered s = new (Wire.new (buffered s) s)

  -- `into_inner`, `inner` and `inner_mut`, with what is done through it: the stream, of two halves.
  abbrev into_inner : Client W Event → Reader × W
  into_inner c = (c.inner.r, c.inner.w)

  abbrev inner : Client W Event → Reader × W
  inner c = (c.inner.r, c.inner.w)

  abbrev inner_mut :
      {A : Type 0} → (Reader × W → (Reader × W) × A) → Client W Event → Client W Event × A
  inner_mut f c =
      let (halves, a) = f (c.inner.r, c.inner.w) in
      (record c { inner = record (c.inner) { r = halves.0; w = halves.1 } }, a)

  -- `events`: the queue is handed over and emptied.
  abbrev pub events : Client W Event → List Event × Client W Event
  events c = (c.event_queue, record c { event_queue = [] })

  abbrev pub set_inner : Qapi W → Client W Event → Client W Event
  set_inner q c = record c { inner = q }

  abbrev pub queue : Event → Client W Event → Client W Event
  queue e c = record c { event_queue = c.event_queue ++ e ∷ [] }

  -- `write_command`: the command without an id, as a line.
  unfoldable pub write_command :
      {Args : Type 0}
      → Writer W (Execute Args Never)
      → Args
      → Client W Event
      → Client W Event × Outcome IoError (Unit {0})
  write_command x args c =
      let (inner, r) = Wire.write_command x args c.inner in (set_inner inner c, r)

module _ {Any W Event C : Type 0}
    (from_slice : Bytes → Outcome IoError (QmpMessage Any Event C)) where
  -- The arms of the loop's match, around the rounds that follow.
  unfoldable pub on_line :
      (Client W Event → Client W Event × Option (Outcome (ExecuteError Any) C))
      → Client W Event
      → Qapi W × Outcome IoError (Option (QmpMessage Any Event C))
      → Client W Event × Option (Outcome (ExecuteError Any) C)
  on_line again c (q, err e) = (set_inner q c, some (err (io e)))
  on_line again c (q, panic) = (set_inner q c, some panic)
  on_line again c (q, ok none) = (set_inner q c, some (err (io unexpected_eof)))
  on_line again c (q, ok (some (response res))) = (set_inner q c, some (map_err qapi (result res)))
  on_line again c (q, ok (some (event e))) = again (queue e (set_inner q c))

  unfoldable pub read_response :
      ℕ → Client W Event → Client W Event × Option (Outcome (ExecuteError Any) C)
  unfolding on_line
  read_response zero c = (c, none)
  read_response (suc fuel) c = on_line (read_response fuel) c (decode_line from_slice c.inner)

  unfoldable pub after_write :
      Client W Event × Outcome IoError (Unit {0})
      → Client W Event × Option (Outcome (ExecuteError Any) C)
  after_write (c, ok done) = read_response (enough c) c
  after_write (c, err e) = (c, some (err (io e)))
  after_write (c, panic) = (c, some panic)

  -- `execute`
  unfoldable pub execute :
      {Args : Type 0}
      → Writer W (Execute Args Never)
      → Args
      → Client W Event
      → Client W Event × Option (Outcome (ExecuteError Any) C)
  unfolding after_write
  execute x args c = after_write (write_command x args c)

-- Around the answer of a call.
unfoldable pub map_answer :
    {S A B E F : Type 0}
    → (Outcome E A → Outcome F B)
    → S × Option (Outcome E A)
    → S × Option (Outcome F B)
map_answer f (s, none) = (s, none)
map_answer f (s, some r) = (s, some (f r))

unfoldable pub greeting :
    {Any Version : Type 0}
    → Outcome IoError (Option (QapiCapabilities Any Version))
    → Outcome IoError (Qmp Any Version)
greeting (ok (some g)) = ok g.qmp
greeting (ok none) = panic
greeting (err e) = err e
greeting panic = panic

module _ {Any W Event Version : Type 0}
    (from_greeting : Bytes → Outcome IoError (QapiCapabilities Any Version)) where
  -- `read_capabilities`: `expect` panics at the end of the stream.
  unfoldable pub read_capabilities :
      Client W Event → Client W Event × Outcome IoError (Qmp Any Version)
  unfolding greeting
  read_capabilities c =
      let (q, line) = decode_line from_greeting c.inner in (set_inner q c, greeting line)

  module _ {Args C : Type 0} (x : Writer W (Execute Args Never)) (qmp_capabilities : Args)
      (from_slice : Bytes → Outcome IoError (QmpMessage Any Event C)) where
    unfoldable pub after_greeting :
        Client W Event × Outcome IoError (Qmp Any Version)
        → Client W Event × Option (Outcome (ExecuteError Any) (Qmp Any Version))
    after_greeting (c, ok caps) =
        map_answer (map_ok λ _. caps) (execute from_slice x qmp_capabilities c)
    after_greeting (c, err e) = (c, some (err (io e)))
    after_greeting (c, panic) = (c, some panic)

    -- `handshake`
    unfoldable pub handshake :
        Client W Event → Client W Event × Option (Outcome (ExecuteError Any) (Qmp Any Version))
    unfolding after_greeting
    handshake c = after_greeting (read_capabilities c)

-- `nop`: a command whose reply is thrown away, its error turned into an I/O error.
unfoldable pub nop :
    {Any W Event Args C : Type 0}
    → Writer W (Execute Args Never)
    → Args
    → (Bytes → Outcome IoError (QmpMessage Any Event C))
    → Client W Event
    → Client W Event × Option (Outcome IoError (Unit {0}))
unfolding io_error_of_execute
nop x query_version from_slice c =
    map_answer (λ r. map_ok (λ _. tt) (map_err io_error_of_execute r))
      (execute from_slice x query_version c)
