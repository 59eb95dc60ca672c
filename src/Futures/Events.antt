-- ===== src/Futures/Events.antt =====
-- The reading half of qapi/src/futures/mod.rs: `response_id`, `handle_response`, and
-- `QapiEvents` as a future and as a stream of events.
use qapi_rs.Prelude.{
  ℕ, ◌^◌, Bool, true, false, Option, none, some, [], ◌∷◌, Outcome, ok, err, panic, ltb,
  if◌then◌else◌, String,
}
use qapi_rs.Prelude.Text.{concat, show}
use qapi_rs.Spec.{IoError, ErrorKind, Response, id, result}
use qapi_rs.Qmp.{QmpMessage}
use qapi_rs.Futures.World.{World, sent, refused, woken_self, Step, effect, ◌>>=◌}
use qapi_rs.Futures.Shared.{Poll, ready, pending, poll_next, command_remove}

-- serde_json's `Value::as_u64`, and the `{:?}` of an optional value.
pub record AnyOps (Any : Type 0) : Type 0 where
  pub as_u64 : Any → Option ℕ
  pub debug : Option Any → String

abbrev invalid_data : String → IoError
invalid_data message = record { kind = ErrorKind.invalid_data; message = message }

-- `id.try_into()` for a `u32`.
unfoldable pub u32_of : ℕ → Outcome IoError ℕ
u32_of n =
    if ltb n (2 ^ 32)
    then ok n
    else err (invalid_data "out of range integral type conversion attempted")

-- What the transport's stream answers to a poll: nothing yet, its end, an error or a message.
pub data Input (M : Type 0) : Type 0 where
  not_yet eof : Input M
  failed : IoError → Input M
  message : M → Input M

module _ {Any : Type 0} (ops : AnyOps Any) where
  open ops use {as_u64, debug}

  -- `res.id().and_then(|id| id.as_u64())`
  abbrev pub numeric_id : Option Any → Option ℕ
  numeric_id none = none
  numeric_id (some a) = as_u64 a

  -- The match of `response_id`.
  id_by_mode : Option Any → Option ℕ → Bool → Outcome IoError ℕ
  unfolding u32_of
  id_by_mode got (some n) true = u32_of n
  id_by_mode got none false = ok 0
  id_by_mode got none true =
      err (invalid_data (concat ("QAPI expected response with numeric ID, got " ∷ debug got ∷ [])))
  id_by_mode got (some n) false =
      err (invalid_data (concat ("QAPI expected response without ID, got " ∷ debug got ∷ [])))

  unfoldable pub response_id : {C : Type 0} → Response Any C → Bool → Outcome IoError ℕ
  unfolding id_by_mode id
  response_id res supports_oob = id_by_mode (id res) (numeric_id (id res)) supports_oob

  -- `sender.send(…)`: it fails, and gives the value back, where the receiver is gone.
  unfoldable pub deliver : (ℕ → Bool) → ℕ → Response Any Any → Option ℕ → Step Any (Unit {0})
  deliver alive id' res (some ch) w =
      if alive ch then (effect (sent ch (result res)) w, ok tt) else (
        effect (refused ch (result res)) w,
        err (invalid_data (concat ("failed to send response for ID " ∷ show id' ∷ []))),
      )
  deliver alive id' res none w =
      (w, err (invalid_data (concat ("unknown QAPI response with ID " ∷ debug (id res) ∷ []))))

  -- After `response_id`.
  unfoldable pub route : (ℕ → Bool) → Response Any Any → Outcome IoError ℕ → Step Any (Unit {0})
  unfolding deliver
  route alive res (ok n) w = (command_remove n >>= deliver alive n res) w
  route alive res (err e) w = (w, err e)
  route alive res panic w = (w, panic)

  -- `handle_response`; `alive` tells which receivers still exist.
  unfoldable pub handle_response : (ℕ → Bool) → Response Any Any → Step Any (Unit {0})
  unfolding route
  handle_response alive res w = route alive res (response_id res w.shared.supports_oob) w

  -- The reply is handled and the task asks to be polled again; an error is the item.
  unfoldable pub after_reply :
      {E : Type 0}
      → World Any × Outcome IoError (Unit {0})
      → World Any × Outcome IoError (Poll (Option (Outcome IoError E)))
  after_reply (w, ok done) = (effect woken_self w, ok pending)
  after_reply (w, err e) = (w, ok (ready (some (err e))))
  after_reply (w, panic) = (w, panic)

  -- The closure of `Future::poll`; `try_into` is the message's conversion to a response.
  unfoldable pub future_body :
      {M : Type 0}
      → (M → Option (Response Any Any))
      → (ℕ → Bool)
      → Input M
      → Step Any (Poll (Option (Outcome IoError (Unit {0}))))
  unfolding after_reply
  future_body try_into alive not_yet w = (w, ok pending)
  future_body try_into alive eof w = (w, ok (ready none))
  future_body try_into alive (failed e) w = (w, ok (ready (some (err e))))
  future_body try_into alive (message m) w = elim (try_into m) [
    | some res ↦ after_reply (handle_response alive res w)
    | none ↦ (effect woken_self w, ok pending)
  ]

  -- `res.unwrap_or(Ok(()))`
  unfoldable pub unwrap_or_done :
      World Any × Outcome IoError (Poll (Option (Outcome IoError (Unit {0}))))
      → World Any × Outcome IoError (Poll (Outcome IoError (Unit {0})))
  unwrap_or_done (w, ok (ready none)) = (w, ok (ready (ok tt)))
  unwrap_or_done (w, ok (ready (some r))) = (w, ok (ready r))
  unwrap_or_done (w, ok pending) = (w, ok pending)
  unwrap_or_done (w, err e) = (w, err e)
  unwrap_or_done (w, panic) = (w, panic)

  -- `Future::poll` of `QapiEvents`
  unfoldable pub future_poll :
      {M : Type 0}
      → (M → Option (Response Any Any))
      → (ℕ → Bool)
      → Input M
      → Step Any (Poll (Outcome IoError (Unit {0})))
  unfolding future_body unwrap_or_done
  future_poll try_into alive input w =
      unwrap_or_done (poll_next (future_body try_into alive input) w)

  -- The closure of `Stream::poll_next`, over QMP messages.
  unfoldable pub stream_body :
      {E : Type 0}
      → (ℕ → Bool)
      → Input (QmpMessage Any E Any)
      → Step Any (Poll (Option (Outcome IoError E)))
  unfolding after_reply
  stream_body alive not_yet w = (w, ok pending)
  stream_body alive eof w = (w, ok (ready none))
  stream_body alive (failed e) w = (w, ok (ready (some (err e))))
  stream_body alive (message (QmpMessage.event e)) w = (w, ok (ready (some (ok e))))
  stream_body alive (message (QmpMessage.response res)) w =
      after_reply (handle_response alive res w)

  -- `Stream::poll_next` of `QapiEvents`
  unfoldable pub stream_poll :
      {E : Type 0}
      → (ℕ → Bool)
      → Input (QmpMessage Any E Any)
      → Step Any (Poll (Option (Outcome IoError E)))
  unfolding stream_body
  stream_poll alive input = poll_next (stream_body alive input)
