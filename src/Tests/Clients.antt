-- ===== src/Tests/Clients.antt =====
-- Runs of the blocking clients of qapi/src/lib.rs, on a peer whose lines are one letter.
use qapi_rs.Prelude.{
  ℕ, ◌≡◌, ◌≢◌, refl, none, some, List, [], ◌∷◌, ◌++◌, Outcome, ok, arith, length, ◌==◌,
  if◌then◌else◌,
}
use qapi_rs.Prelude.Int.{ℤ, pos}
use qapi_rs.Spec.{IoError, Response, Execute, result, from_command}
use qapi_rs.Qmp.{QapiCapabilities, QmpMessage, event, response}
use qapi_rs.Codec.{Bytes}
use qapi_rs.Client.Wire
use qapi_rs.Client.Wire.{Qapi, Writer}
use qapi_rs.Client.QmpClient
use qapi_rs.Client.QmpClient.{Never, read_response, enough, handshake}
use qapi_rs.Client.QgaClient
use qapi_rs.Client.QgaClient.{guest_sync}
use qapi_rs.Client.Handshake.{handshake_agrees}
use qapi_rs.Client.Replies.{Answered, read_response_total, read_response_separates}

-- An answer with the letter itself, where it is `r`; any other letter is an event.
abbrev pub reply_of : ℕ → Response ℕ ℕ
reply_of n = Response.ok (record { return_ = n; id = none })

abbrev pub from_slice : Bytes → Outcome IoError (QmpMessage ℕ ℕ ℕ)
from_slice [] = ok (event 0)
from_slice (c ∷ cs) = ok (if c == b'r' then response (reply_of c) else event c)

abbrev pub connection : Bytes → Qapi Bytes
connection unread = record { r = record { unread = unread; ending = none }; w = []; buffer = [] }

abbrev client : Bytes → QmpClient.Client Bytes ℕ
client unread = record { inner = connection unread; event_queue = b'z' ∷ [] }

read_response_total_example :
    (read_response from_slice 5 (client (b'a' ∷ b'\n' ∷ b'b' ∷ b'\n' ∷ []))).1 ≢ none
read_response_total_example =
    read_response_total from_slice (client (b'a' ∷ b'\n' ∷ b'b' ∷ b'\n' ∷ []))

abbrev two_events : List (Bytes × ℕ)
two_events = (b'a' ∷ [], b'a') ∷ (b'b' ∷ [], b'b') ∷ []

read_response_separates_example :
    Answered from_slice
      (client (b'a' ∷ b'\n' ∷ b'b' ∷ b'\n' ∷ b'r' ∷ b'\n' ∷ b'x' ∷ []))
      (b'a' ∷ b'b' ∷ [])
      (reply_of b'r')
      (b'x' ∷ [])
      (read_response from_slice 8 (client (b'a' ∷ b'\n' ∷ b'b' ∷ b'\n' ∷ b'r' ∷ b'\n' ∷ b'x' ∷ [])))
read_response_separates_example =
    read_response_separates from_slice two_events (b'r' ∷ []) (b'x' ∷ []) (reply_of b'r')
      (client (b'a' ∷ b'\n' ∷ b'b' ∷ b'\n' ∷ b'r' ∷ b'\n' ∷ b'x' ∷ []))
      ((ground arith, tt), refl, ((ground arith, tt), refl, tt)) (ground arith, tt) refl refl

-- A writer into a buffer; a command's text is its arguments.
abbrev pub writer : Writer Bytes (Execute Bytes Never)
writer = record {
  serialize = λ item w. (w ++ item.arguments, ok tt);
  write = λ s w. (w ++ s, ok (length s));
  flush = λ w. (w, ok tt);
}

-- A greeting that is always the same, and a session in which it is followed by two events.
abbrev pub from_greeting : Bytes → Outcome IoError (QapiCapabilities ℕ ℕ)
from_greeting s = ok (record { qmp = record { version = 9; capabilities = [] } })

abbrev session : Bytes
session = b'g' ∷ b'\n' ∷ b'a' ∷ b'\n' ∷ b'b' ∷ b'\n' ∷ b'r' ∷ b'\n' ∷ b'x' ∷ []

handshake_agrees_example :
    let (c, r) = handshake from_greeting writer (b'c' ∷ []) from_slice (client session) in
    (r ≡ some (ok (record { version = 9; capabilities = [] })))
    × (c.event_queue ≡ b'z' ∷ b'a' ∷ b'b' ∷ [])
    × (c.inner.r.unread ≡ b'x' ∷ [])
    × (c.inner.w ≡ b'c' ∷ b'\n' ∷ [])
unfolding result from_command
handshake_agrees_example =
    handshake_agrees from_greeting writer (λ item. item.arguments) (b'c' ∷ []) from_slice two_events
      (b'g' ∷ []) (b'r' ∷ []) (b'x' ∷ []) (reply_of b'r')
      (record { qmp = record { version = 9; capabilities = [] } }) (client session)
      (record { serializes = λ item w. refl; writes = λ bytes w. refl; flushes = λ w. refl })
      (ground arith, tt) refl ((ground arith, tt), refl, ((ground arith, tt), refl, tt))
      (ground arith, tt) refl refl

abbrev number_of : Bytes → Outcome IoError (Response ℕ ℤ)
number_of s = ok (Response.ok (record { return_ = pos (length s); id = none }))

abbrev guest_sync_args : ℤ → Bytes
guest_sync_args id = b's' ∷ []

abbrev agent : QgaClient.Client Bytes
agent = record { inner = connection (b'1' ∷ b'2' ∷ b'\n' ∷ []) }

guest_sync_agrees : (guest_sync number_of writer guest_sync_args (pos 3) agent).1 ≡ ok tt
unfolding guest_sync QgaClient.execute QgaClient.write_command Wire.encode_line
    QgaClient.read_response Wire.decode_line Wire.read_until Wire.split_line result
guest_sync_agrees = refl
