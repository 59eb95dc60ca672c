-- ===== src/Service/Stream.antt =====
-- `QapiStream::execute` of qapi/src/futures/mod.rs: one task polls the call, and where that has
-- nothing yet, the reading half.
use qapi_rs.Prelude.{
  ℕ, ◌≡◌, refl, Bool, true, false, Option, none, some, List, [], ◌∷◌, Outcome, ok, err, panic, ◌==◌,
  if◌then◌else◌, if_true, ==_iff,
}
use qapi_rs.Spec.{IoError, ErrorKind, Response, result}
use qapi_rs.Qmp.{QmpMessage}
use qapi_rs.Client.{ExecuteError, io}
use qapi_rs.Futures.World.{
  World, Effect, created, sent, refused, dropped, registered, woken_stop, woken_self, lookup,
}
use qapi_rs.Futures.Shared.{Poll, ready, pending, command_remove, poll_next, on_poll}
use qapi_rs.Futures.Events.{AnyOps, Input, message, handle_response, future_poll, deliver}
use qapi_rs.Futures.Routing.{Routes, response_id-Routes}
use qapi_rs.Futures.Runs.{response_of}
use qapi_rs.Service.{Received, delivered, cancelled, command_response}

-- What has come to the receiver of a channel, if anything.
unfoldable pub receive : {Any : Type 0} → ℕ → List (Effect Any) → Option (Received Any)
receive ch [] = none
receive ch (sent c r ∷ log) =
    let rest = receive ch log in if c == ch then some (delivered r) else rest
receive ch (dropped c ∷ log) = let rest = receive ch log in if c == ch then some cancelled else rest
receive ch (created c ∷ log) = receive ch log
receive ch (refused c r ∷ log) = receive ch log
receive ch (registered ∷ log) = receive ch log
receive ch (woken_stop ∷ log) = receive ch log
receive ch (woken_self ∷ log) = receive ch log

module _ {Any Ok : Type 0} (deserialize : Any → Outcome IoError Ok) where
  -- The call's future once its command is written.
  abbrev on_received : Option (Received Any) → Poll (Outcome (ExecuteError Any) Ok)
  on_received none = pending
  on_received (some r) = ready (command_response deserialize r)

  response_poll : ℕ → World Any → Poll (Outcome (ExecuteError Any) Ok)
  response_poll ch w = on_received (receive ch w.log)

  -- The arm of the reading half.
  unfoldable pub after_events :
      World Any × Outcome IoError (Poll (Outcome IoError (Unit {0})))
      → World Any × Outcome IoError (Poll (Outcome (ExecuteError Any) Ok))
  after_events (w, ok (ready (ok done))) = (
    w,
    ok (
        ready (
          err (
            io (record {
              kind = ErrorKind.unexpected_eof;
              message = "unexpected EOF when executing command";
            })))),
  )
  after_events (w, ok (ready (err e))) = (w, ok (ready (err (io e))))
  after_events (w, ok (ready panic)) = (w, panic)
  after_events (w, ok pending) = (w, ok pending)
  after_events (w, err e) = (w, err e)
  after_events (w, panic) = (w, panic)

  -- `select_biased!`: the call's arm comes first.
  abbrev select :
      Poll (Outcome (ExecuteError Any) Ok)
      → World Any
      → World Any × Outcome IoError (Poll (Outcome IoError (Unit {0})))
      → World Any × Outcome IoError (Poll (Outcome (ExecuteError Any) Ok))
  select (ready r) w events = (w, ok (ready r))
  select pending w events = after_events events

  select-some :
      (o : Option (Received Any)) (d : Received Any) (w : World Any)
      (events : World Any × Outcome IoError (Poll (Outcome IoError (Unit {0}))))
      → o ≡ some d
      → select (on_received o) w events ≡ (w, ok (ready (command_response deserialize d)))
  select-some o d w events e = rw e

  module _ {E : Type 0} (ops : AnyOps Any) where
    -- A poll of `QapiStream::execute` whose command is written, on channel `ch`.
    pub execute_poll :
        ℕ
        → (ℕ → Bool)
        → Input (QmpMessage Any E Any)
        → World Any
        → World Any × Outcome IoError (Poll (Outcome (ExecuteError Any) Ok))
    execute_poll ch alive input w =
        select (response_poll ch w) w (future_poll ops response_of alive input w)

    -- The reply to the command that the task executes arrives, in a client that is not stopped
    -- and has an unpoisoned table, nothing having come to the caller before: the poll that reads
    -- it is pending, and the next one, whatever the transport then gives, returns that reply's
    -- result as the command's.
    pub execute_poll_returns :
        (w : World Any) (res : Response Any Any) (n ch : ℕ) (alive : ℕ → Bool)
        (later : Input (QmpMessage Any E Any))
        → w.shared.commands.poisoned ≡ false
        → w.shared.stop ≡ false
        → Routes ops w.shared.supports_oob res n
        → lookup n w.shared.commands.pending ≡ some ch
        → alive ch ≡ true
        → receive ch w.log ≡ none
        → let (v, r) = execute_poll ch alive (message (QmpMessage.response res)) w in
          (r ≡ ok pending)
          × (execute_poll ch alive later v
              ≡ (v, ok (ready (command_response deserialize (delivered (result res))))))
    unfolding execute_poll response_poll receive after_events future_poll poll_next on_poll
        handle_response deliver command_remove
    execute_poll_returns w res n ch alive later p s r l a u =
        rw (u, s, response_id-Routes ops w.shared.supports_oob res n r, p, l, a)
          (refl, select-some _ (delivered (result res)) _ _ (if_true _ _ ((==_iff ch ch).1 refl)))
