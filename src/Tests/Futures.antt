-- ===== src/Tests/Futures.antt =====
-- Runs of the asynchronous client of qapi/src/futures/mod.rs. A JSON value is a number.
use qapi_rs.Prelude.{
  ℕ, ◌≡◌, ◌+◌, refl, true, false, Option, none, some, List, [], ◌∷◌, ◌++◌, ok, arith, ltb,
  if◌then◌else◌, ◌==◌, ◌⊎◌,
}
use qapi_rs.Prelude.Text.{concat, show}
use qapi_rs.Spec.{Response, ErrorKind, id, result}
use qapi_rs.Qmp.{QmpMessage}
use qapi_rs.Futures.Wakeup.{
  Move, poller_moves, stopper_moves, executor_polls, nothing_yet, item, returned_pending,
  returned_end, done, moves, move, at_first, stop_wakes,
}
use qapi_rs.Futures.World.{lookup, insert, sent, woken_stop, drop_all}
use qapi_rs.Futures.Shared
use qapi_rs.Futures.Shared.{
  Poll, ready, command_insert, release, service_stop, events_drop, command_remove,
}
use qapi_rs.Futures.Events.{
  AnyOps, Input, message, eof, handle_response, deliver, response_id, u32_of, future_poll,
}
use qapi_rs.Futures.Ownership.{settled, held}
use qapi_rs.Futures.Runs.{Op, command, polled_stream, start, step, run, response_of, settled_once}
use qapi_rs.Futures.Shutdown.{release_then_drop_stops}
use qapi_rs.Futures.Spawned.{awaiting, into_future_poll, on_future, ended}
use qapi_rs.Futures.Spawned.Ends.{task_end_settles_all}
use qapi_rs.Futures.Routing.{handle_response_delivers}
use qapi_rs.Futures.Routing.Errors.{Refuses, Unknown, handle_response_error}

abbrev pub numbers : AnyOps ℕ
numbers = record { as_u64 = λ n. some n; debug = λ o. "a value" }

abbrev pub answer : Option ℕ → Response ℕ ℕ
answer id = Response.ok (record { return_ = 42; id = id })

abbrev reply : Option ℕ → Input (QmpMessage ℕ ℕ ℕ)
reply id = message (QmpMessage.response (answer id))

-- Two commands, the reply to the second, then the reading half dropped.
abbrev two_commands : List (Op ℕ ℕ)
two_commands = command 0 ∷ command 1 ∷ polled_stream (λ ch. true) (reply (some 1)) ∷ []

settled_once_example :
    let w = run {E = ℕ} numbers two_commands (start ℕ true) in
    settled 1 w.log + held 1 w.shared.commands.pending ≡ (if ltb 1 w.next_channel then 1 else 0)
settled_once_example = settled_once numbers true two_commands 1

-- The stream ends under the task while a command is pending; another comes later.
task_end_settles_all_example :
    settled 0
      (run {E = ℕ} numbers
        (command 7 ∷ [])
        (into_future_poll numbers
          (response_of {E = ℕ})
          awaiting
          (λ ch. true)
          eof
          (run {E = ℕ} numbers (command 0 ∷ []) (start ℕ true))).1).log
    ≡ 1
unfolding run step events_drop future_poll command_insert Shared.new lookup Shared.poll_next insert
    drop_all into_future_poll on_future ended
task_end_settles_all_example =
    task_end_settles_all {E = ℕ} numbers (λ ch. true) eof true (command 0 ∷ []) (command 7 ∷ [])
      awaiting 0 refl refl

release_then_drop_stops_example :
    let u = run {E = ℕ} numbers (command 0 ∷ []) (release (start ℕ false)).0 in
    let v = run {E = ℕ} numbers (command 1 ∷ []) (service_stop u).0 in
    ((service_stop u).0.log ≡ woken_stop ∷ u.log)
    × (future_poll numbers (response_of {E = ℕ}) (λ ch. true) (reply none) v
        ≡ (v, ok (ready (ok tt))))
unfolding run step command_insert release Shared.new lookup insert
release_then_drop_stops_example =
    release_then_drop_stops numbers (start ℕ false) (command 0 ∷ []) (command 1 ∷ []) (λ ch. true)
      (reply none) refl refl

handle_response_delivers_example :
    let w = run {E = ℕ} numbers (command 0 ∷ command 1 ∷ []) (start ℕ true) in
    let (w', r) = handle_response numbers (λ ch. true) (answer (some 1)) w in
    (r ≡ ok tt)
    × (w'.log ≡ sent 1 (ok 42) ∷ w.log)
    × ((k : ℕ)
        → lookup k w'.shared.commands.pending
          ≡ (if 1 == k then none else lookup k w.shared.commands.pending))
unfolding run step command_insert lookup insert result id Shared.new
handle_response_delivers_example =
    handle_response_delivers numbers {E = ℕ} (command 0 ∷ command 1 ∷ []) true (λ ch. true)
      (answer (some 1)) 1 1 refl (refl, omega arith) refl refl

-- The caller of the second command is gone.
handle_response_error_example :
    let w = run {E = ℕ} numbers (command 0 ∷ command 1 ∷ []) (start ℕ true) in
    let u = (handle_response numbers (λ ch. false) (answer (some 1)) w).0 in
    (ErrorKind.invalid_data ≡ ErrorKind.invalid_data)
    × (((u ≡ w) × Unknown numbers (λ ch. false) (answer (some 1)) w)
        ⊎ Refuses numbers (λ ch. false) (answer (some 1)) w u)
unfolding run step command_insert lookup insert result id Shared.new handle_response deliver
    command_remove response_id u32_of
handle_response_error_example =
    handle_response_error numbers (λ ch. false) (answer (some 1)) {E = ℕ}
      (command 0 ∷ command 1 ∷ []) true
      (record {
        kind = ErrorKind.invalid_data;
        message = concat ("failed to send response for ID " ∷ show 1 ∷ []);
      })
      refl

-- A poll goes to sleep, then `stop` stores and wakes.
abbrev sleep_and_stop : List Move
sleep_and_stop =
    poller_moves nothing_yet
    ∷ poller_moves nothing_yet
    ∷ poller_moves nothing_yet
    ∷ poller_moves nothing_yet
    ∷ stopper_moves
    ∷ stopper_moves
    ∷ []

sleep_and_stop-ends :
    ((moves sleep_and_stop at_first).poller ≡ returned_pending)
    × ((moves sleep_and_stop at_first).stopper ≡ done)
unfolding moves move
sleep_and_stop-ends = (refl, refl)

stop_wakes_example :
    ((moves sleep_and_stop at_first).woken ≡ true)
    × ((moves (sleep_and_stop ++ executor_polls ∷ poller_moves item ∷ []) at_first).poller
        ≡ returned_end)
stop_wakes_example = stop_wakes sleep_and_stop item sleep_and_stop-ends.0 sleep_and_stop-ends.1
