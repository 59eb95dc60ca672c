-- ===== src/Service/Task.antt =====
-- `QapiStream::execute` of qapi/src/futures/mod.rs as one task: a poll takes the call of
-- `QapiService::execute` as far as it goes, through the lock of the sink, the insertion, the
-- write and the receiver, and where that has nothing yet polls the reading half.
pub mod Polls
pub mod Answered
use qapi_rs.Prelude.{
  ℕ, Bool, false, Option, none, some, List, [], ◌∷◌, Outcome, ok, err, panic, ◌==◌,
}
use qapi_rs.Spec.{IoError}
use qapi_rs.Qmp.{QmpMessage}
use qapi_rs.Client.{ExecuteError, io}
use qapi_rs.Futures.World.{World}
use qapi_rs.Futures.Shared.{Poll, ready, pending}
use qapi_rs.Futures.Events.{AnyOps, Input, future_poll}
use qapi_rs.Futures.Runs.{response_of}
use qapi_rs.Service.{
  Phase, unborn, over, waiting, sending, awaiting, System, Received, command_response, locked, sent,
  finish,
}
use qapi_rs.Service.Steps.{with_world}
use qapi_rs.Service.Stream.{receive, after_events}

-- What the sink answers to the future of `send`.
abbrev pub SinkPoll : Type 0
SinkPoll = Poll (Outcome IoError (Unit {0}))

-- What one poll of the task finds: the sink's answer and the transport's, should they be asked.
abbrev pub Answers : Type 0 → Type 0 → Type 0
Answers Any E = SinkPoll × Input (QmpMessage Any E Any)

-- The channels whose receiver exists: a `QapiStream` is borrowed by the one call.
unfoldable pub receiver_of : Phase → ℕ → Bool
receiver_of (sending id ch) c = c == ch
receiver_of (awaiting id ch) c = c == ch
receiver_of unborn c = false
receiver_of over c = false
receiver_of (waiting id) c = false

module _ {Any Ok : Type 0} (deserialize : Any → Outcome IoError Ok) (t : ℕ) where
  -- A poll: the state that it leaves, and its answer or a panic.
  abbrev Polled : Type 0
  Polled = System Any × Outcome IoError (Poll (Outcome (ExecuteError Any) Ok))

  -- The last await of `execute`.
  unfoldable pub awaiting_poll : Option (Received Any) → System Any → Polled
  awaiting_poll none s = (s, ok pending)
  awaiting_poll (some r) s = (finish t s, ok (ready (command_response deserialize r)))

  -- `sink.send(command).await?`, and what follows.
  unfoldable pub sending_poll : Option ℕ → ℕ → SinkPoll → System Any → Polled
  unfolding awaiting_poll
  sending_poll id ch pending s = (s, ok pending)
  sending_poll id ch (ready (ok done)) s = awaiting_poll (receive ch s.world.log) (sent t id ch s)
  sending_poll id ch (ready (err e)) s = (finish t s, ok (ready (err (io e))))
  sending_poll id ch (ready panic) s = (finish t s, panic)

  -- The sink was free: the insertion has moved the call on, or panicked.
  unfoldable pub inserted_poll : SinkPoll → Phase → System Any → Polled
  unfolding sending_poll
  inserted_poll sink (sending id ch) s = sending_poll id ch sink s
  inserted_poll sink unborn s = (s, panic)
  inserted_poll sink over s = (s, panic)
  inserted_poll sink (waiting id) s = (s, panic)
  inserted_poll sink (awaiting id ch) s = (s, panic)

  -- `sink.lock().await`
  unfoldable pub waiting_poll : SinkPoll → Option ℕ → Option ℕ → System Any → Polled
  unfolding inserted_poll
  waiting_poll sink id none s = let s' = locked t id s in inserted_poll sink (s'.tasks t) s'
  waiting_poll sink id (some holder) s = (s, ok pending)

  phase_poll : SinkPoll → Phase → System Any → Polled
  unfolding waiting_poll
  phase_poll sink (waiting id) s = waiting_poll sink id s.writer s
  phase_poll sink (sending id ch) s = sending_poll id ch sink s
  phase_poll sink (awaiting id ch) s = awaiting_poll (receive ch s.world.log) s
  phase_poll sink unborn s = (s, panic)
  phase_poll sink over s = (s, ok pending)

  -- A poll of the fused future of `QapiService::execute`: one that is over stays pending.
  unfoldable pub call_poll : SinkPoll → System Any → Polled
  unfolding phase_poll
  call_poll sink s = phase_poll sink (s.tasks t) s

  -- What the reading half's arm leaves. The call's future is dropped with the task that ends.
  unfoldable pub events_arm :
      System Any → World Any × Outcome IoError (Poll (Outcome (ExecuteError Any) Ok)) → Polled
  events_arm s (w, ok pending) = (with_world w s, ok pending)
  events_arm s (w, ok (ready r)) = (finish t (with_world w s), ok (ready r))
  events_arm s (w, err e) = (finish t (with_world w s), err e)
  events_arm s (w, panic) = (finish t (with_world w s), panic)

  -- What the executor has after a poll, and otherwise would have after the later ones.
  unless_pending : Polled → Polled → Polled
  unless_pending (s, ok pending) later = later
  unless_pending (s, ok (ready r)) later = (s, ok (ready r))
  unless_pending (s, err e) later = (s, err e)
  unless_pending (s, panic) later = (s, panic)

  module _ {E : Type 0} (ops : AnyOps Any) where
    -- `select_biased!`: the call's arm comes first.
    unfoldable pub select_poll : Input (QmpMessage Any E Any) → Polled → Polled
    unfolding events_arm
    select_poll input (s, ok pending) = events_arm s (
        after_events deserialize
          (future_poll ops response_of (receiver_of (s.tasks t)) input s.world))
    select_poll input (s, ok (ready r)) = (s, ok (ready r))
    select_poll input (s, err e) = (s, err e)
    select_poll input (s, panic) = (s, panic)

    -- A poll of `QapiStream::execute`.
    unfoldable pub task_poll : Answers Any E → System Any → Polled
    unfolding select_poll call_poll
    task_poll (sink, input) s = select_poll input (call_poll sink s)

    -- The executor polls until the task has an answer, once for each element of the list.
    unfoldable pub task_polls : List (Answers Any E) → System Any → Polled
    unfolding task_poll unless_pending
    task_polls [] s = (s, ok pending)
    task_polls (a ∷ later) s =
        let p = task_poll a s in let rest = task_polls later p.0 in unless_pending p rest
