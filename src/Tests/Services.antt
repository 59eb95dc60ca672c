-- ===== src/Tests/Services.antt =====
-- Histories of calls of `execute` of qapi/src/futures/mod.rs.
use qapi_rs.Prelude.{
  ◌+◌, List, [], ◌∷◌, ℕ, ◌≡◌, ◌≤◌, refl, true, false, none, some, ok, panic, arith, length,
}
use qapi_rs.Futures.World.{World, lookup, insert}
use qapi_rs.Futures.Shared
use qapi_rs.Futures.Shared.{command_insert, command_remove}
use qapi_rs.Service.{command_response, System, execute, locked, sent, finish}
use qapi_rs.Service.Steps.{
  fresh, Reach, ReachAny, call, lock, write, here, next, step, abandon, read, future, with_world,
}
use qapi_rs.Service.Serial.{serial_insert_succeeds, serial_one_at_a_time, dropped_call_poisons}
use qapi_rs.Service.Tagged
use qapi_rs.Service.Tagged.{tagged_insert_succeeds, tagged_ids_distinct}
use qapi_rs.Spec.{Response, result, id}
use qapi_rs.Qmp.{QmpMessage}
use qapi_rs.Futures.Shared.{Poll, ready, pending}
use qapi_rs.Futures.Events.{Input, message, not_yet, future_poll}
use qapi_rs.Futures.Runs.{start, response_of}
use qapi_rs.Service.Stream.{execute_poll, execute_poll_returns, receive}
use qapi_rs.Service.Task.{Answers, task_polls}
use qapi_rs.Service.Task.Answered.{busy, taken, quiet, reply, execute_answers}
use qapi_rs.Service.Entered.{Enters}
use qapi_rs.Tests.Futures.{numbers, answer}

-- One call that waits for the sink, and the same call with its command written.
abbrev waiting_call : System ℕ
waiting_call = execute 0 (fresh false)

abbrev waiting_call-Reach : Reach ℕ numbers (fresh false) waiting_call
waiting_call-Reach = next here (call 0 refl refl)

abbrev sent_call : System ℕ
sent_call = sent 0 none 0 (locked 0 none waiting_call)

abbrev sent_call-Reach : Reach ℕ numbers (fresh false) sent_call
unfolding execute locked Shared.new command_insert lookup insert
sent_call-Reach =
    next (next waiting_call-Reach (lock 0 none refl refl refl)) (write 0 none 0 refl refl)

serial_insert_succeeds_example :
    (waiting_call.world.shared.commands.poisoned ≡ false)
    × (lookup 0 waiting_call.world.shared.commands.pending ≡ none)
    × ((command_insert 0 waiting_call.world).1 ≡ ok waiting_call.world.next_channel)
    × Enters 0 none waiting_call
unfolding execute Shared.new
serial_insert_succeeds_example =
    serial_insert_succeeds numbers waiting_call 0 none waiting_call-Reach refl refl

serial_one_at_a_time_example :
    (◌≡◌ {A = ℕ} 0 0)
    × (sent_call.writer ≡ some 0)
    × (length sent_call.world.shared.commands.pending ≤ 1)
unfolding execute locked sent Shared.new command_insert lookup insert
serial_one_at_a_time_example = serial_one_at_a_time numbers sent_call 0 0 sent_call-Reach tt tt

-- The call is dropped, and another is given the sink.
dropped_call_poisons_example :
    let s' = locked 1 none (finish 0 sent_call) in
    ((finish 0 sent_call).writer ≡ none)
    × ((command_insert 0 (finish 0 sent_call).world).1 ≡ panic)
    × (s'.world.shared.commands.poisoned ≡ true)
    × ((id : ℕ) → (command_remove id s'.world).1 ≡ panic)
unfolding execute locked sent Shared.new command_insert lookup insert
dropped_call_poisons_example =
    dropped_call_poisons numbers sent_call 0 1 0 sent_call-Reach tt refl refl

-- Two calls under ids, the first of which is dropped when it has the sink.
abbrev two_calls : System ℕ
two_calls = execute 1 (finish 0 (locked 0 (some 0) (execute 0 (fresh true))))

abbrev two_calls-Reach : ReachAny ℕ numbers (fresh true) two_calls
unfolding execute locked finish Shared.new command_insert lookup insert
two_calls-Reach =
    next
      (next (next (next here (step (call 0 refl refl))) (step (lock 0 (some 0) refl refl refl)))
        (abandon 0 refl))
      (step (call 1 refl refl))

tagged_insert_succeeds_example :
    (two_calls.world.shared.commands.poisoned ≡ false)
    × (lookup 1 two_calls.world.shared.commands.pending ≡ none)
    × ((command_insert 1 two_calls.world).1 ≡ ok two_calls.world.next_channel)
    × Enters 1 (some 1) two_calls
unfolding execute locked finish Shared.new command_insert lookup insert Tagged.calls
tagged_insert_succeeds_example =
    tagged_insert_succeeds numbers two_calls two_calls-Reach 1 (some 1) (omega arith) refl

tagged_ids_distinct_example : ◌≡◌ {A = ℕ} 1 1
unfolding execute locked finish Shared.new command_insert lookup insert Tagged.calls
tagged_ids_distinct_example =
    tagged_ids_distinct numbers two_calls two_calls-Reach 1 1 1 (omega arith) refl refl

-- A client with one command in the table.
abbrev one_command : World ℕ
one_command = (command_insert 0 (start ℕ true)).0

execute_poll_returns_example :
    let (v, r) =
      execute_poll
        (λ a. ok a)
        {E = ℕ}
        numbers
        0
        (λ c. true)
        (message (QmpMessage.response (answer (some 0))))
        one_command in
    (r ≡ ok pending)
    × (execute_poll (λ a. ok a) {E = ℕ} numbers 0 (λ c. true) not_yet v ≡ (v, ok (ready (ok 42))))
unfolding Shared.new command_insert lookup insert receive result id command_response
execute_poll_returns_example =
    execute_poll_returns (λ a. ok a) {E = ℕ} numbers one_command (answer (some 0)) 0 0 (λ c. true)
      not_yet refl refl (refl, omega arith) refl refl refl

-- The polls of one call: the sink is busy while an event comes, then takes the command; another
-- event, and nothing; the reply; and the poll that answers.
abbrev some_polls : List (Answers ℕ ℕ)
some_polls =
    (pending, message (QmpMessage.event 7))
    ∷ (ready (ok tt), not_yet)
    ∷ (pending, message (QmpMessage.event 8))
    ∷ (pending, message (QmpMessage.response (answer (some 0))))
    ∷ (pending, not_yet)
    ∷ []

execute_answers_example :
    let (s, r) = task_polls (λ a. ok a) 0 numbers some_polls (execute 0 (fresh true)) in
    (s.writer ≡ none) × (r ≡ ok (ready (ok 42)))
unfolding Shared.new lookup receive result id command_response
execute_answers_example =
    execute_answers (λ a. ok a) 0 numbers some_polls (answer (some 0)) (fresh true)
      (busy (message (QmpMessage.event 7)) _ tt (
        taken not_yet _ tt (
          quiet pending (message (QmpMessage.event 8)) _ tt (reply pending (pending, not_yet) []))))
      refl (refl, refl, refl, refl, refl) (refl, omega arith)

-- Two calls under ids, whose replies come in the other order: the second call's before the first
-- one's.
abbrev both_sent : System ℕ
both_sent =
    sent 1 (some 1) 1 (
      locked 1 (some 1)
        (sent 0 (some 0) 0 (locked 0 (some 0) (execute 1 (execute 0 (fresh true))))))

abbrev in_reply : ℕ → Input (QmpMessage ℕ ℕ ℕ)
in_reply n = message (QmpMessage.response (Response.ok (record { return_ = n + 40; id = some n })))

abbrev hears : ℕ → System ℕ → System ℕ
hears n s = with_world (future_poll numbers response_of (λ c. true) (in_reply n) s.world).0 s

abbrev both_heard : System ℕ
both_heard = hears 0 (hears 1 both_sent)

abbrev both_heard-ReachAny : ReachAny ℕ numbers (fresh true) both_heard
unfolding execute locked sent Shared.new command_insert lookup insert
both_heard-ReachAny =
    next
      (next
        (next
          (next
            (next
              (next (next (next here (step (call 0 refl refl))) (step (call 1 refl refl)))
                (step (lock 0 (some 0) refl refl refl)))
              (step (write 0 (some 0) 0 refl refl)))
            (step (lock 1 (some 1) refl refl refl)))
          (step (write 1 (some 1) 1 refl refl)))
        (step (read _ (future (λ c. true) (in_reply 1) refl) refl)))
      (step (read _ (future (λ c. true) (in_reply 0) refl) refl))
