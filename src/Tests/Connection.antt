-- ===== src/Tests/Connection.antt =====
-- A run of the reading half of qapi/src/futures/mod.rs over the bytes of three messages, which the
-- socket cuts inside a line.
use mathlib.Core.Quot
use qapi_rs.Prelude.{
  ℕ, ◌≡◌, refl, Bool, true, none, some, List, [], ◌∷◌, ◌++◌, map, Outcome, ok, arith, All, ◌==◌,
  if◌then◌else◌,
}
use qapi_rs.Spec.{IoError, Response, id}
use qapi_rs.Qmp.{QmpMessage}
use qapi_rs.Codec.{Bytes, Absent, Json, encode, new}
use qapi_rs.Codec.Feed.{feed}
use qapi_rs.Codec.Encode.{Writes, encode_all}
use qapi_rs.Futures.World.{lookup, insert, remove}
use qapi_rs.Futures.Shared
use qapi_rs.Futures.Shared.{command_insert}
use qapi_rs.Futures.Runs.{Op, command, start, run, step}
use qapi_rs.Futures.Connection.{poll_each, shown, Settles, Answerable, replies_reach_callers}
use qapi_rs.Futures.Table.{Table, enter, nothing_pending}
use qapi_rs.Futures.Table.Steps.{Stands, Refines, steps_refine_table}
use qapi_rs.Tests.Bytes.{bytes, bytes-IsDocumented}
use qapi_rs.Tests.Futures.{numbers, answer}

-- A message is a letter: an event, or a reply with its id.
abbrev letter_of_id : Bool → ℕ
letter_of_id b = if b then b'0' else b'1'

abbrev letter : QmpMessage ℕ ℕ ℕ → ℕ
letter (QmpMessage.event e) = b'e'
letter (QmpMessage.response (Response.ok r)) = elim (r.id) [
  | none ↦ b'0'
  | some n ↦ letter_of_id (n == 0)
]
letter (QmpMessage.response (Response.err r)) = b'0'

abbrev text : QmpMessage ℕ ℕ ℕ → Bytes
text m = letter m ∷ []

abbrev message_of : Bytes → QmpMessage ℕ ℕ ℕ
message_of [] = QmpMessage.event 5
message_of (c ∷ cs) =
    if c == b'e'
    then QmpMessage.event 5
    else QmpMessage.response (answer (some (if c == b'0' then 0 else 1)))

abbrev json : Json (QmpMessage ℕ ℕ ℕ)
json = record { JsonError = IoError; from_slice = λ s. ok (message_of s); io_error = λ e. e }

abbrev to_writer : QmpMessage ℕ ℕ ℕ → Bytes → Bytes × Outcome IoError (Unit {0})
to_writer m buf = (buf ++ text m, ok tt)

letter-Absent : (m : QmpMessage ℕ ℕ ℕ) → Absent b'\n' (text m)
letter-Absent (QmpMessage.event e) = (ground arith, tt)
letter-Absent (QmpMessage.response (Response.ok r)) = elim (r.id) [
  | none ↦ (ground arith, tt)
  | some n ↦ (ground arith, tt)
]
letter-Absent (QmpMessage.response (Response.err r)) = (ground arith, tt)

to_writer-Writes : Writes to_writer text
to_writer-Writes = record { appends = λ m buf. refl; one_line = letter-Absent }

abbrev commands : List (Op ℕ ℕ)
commands = command 0 ∷ command 1 ∷ []

abbrev messages : List (QmpMessage ℕ ℕ ℕ)
messages =
    QmpMessage.response (answer (some 1))
    ∷ QmpMessage.event 5
    ∷ QmpMessage.response (answer (some 0))
    ∷ []

abbrev chunks : List Bytes
chunks = (b'1' ∷ []) ∷ (b'\n' ∷ b'e' ∷ b'\n' ∷ b'0' ∷ []) ∷ (b'\n' ∷ []) ∷ []

messages-Answerable :
    Answerable {E = ℕ} numbers
      (λ ch. true)
      true
      (run {E = ℕ} numbers commands (start ℕ true)).shared.commands.pending
      messages
unfolding run step command_insert Shared.new lookup insert remove id
messages-Answerable =
    (1, 1, (refl, ground arith), refl, refl, (0, 0, (refl, ground arith), refl, refl, tt))

replies_reach_callers_example :
    let w = run {E = ℕ} numbers commands (start ℕ true) in
    let q = poll_each numbers (λ ch. true) (feed bytes json new [] chunks).frames w in
    (q.1 ≡ map (shown numbers (λ ch. true)) messages)
    × All (Settles numbers (λ ch. true) w q.0) messages
unfolding run step command_insert Shared.new lookup insert encode_all encode
replies_reach_callers_example =
    replies_reach_callers numbers (λ ch. true) bytes json to_writer text true commands messages
      chunks bytes-IsDocumented to_writer-Writes (λ line e. cc) (refl, (refl, (refl, tt))) refl refl
      messages-Answerable refl

-- The two commands as a table.
abbrev two_pending : Table
two_pending = enter 1 1 (enter 0 0 nothing_pending)

two_pending-Stands : Stands numbers (run {E = ℕ} numbers commands (start ℕ true)) two_pending
unfolding run step command_insert Shared.new lookup insert enter nothing_pending
two_pending-Stands = ((((λ e. cc), tt), (tt, tt)), Quot.sound (λ k. refl))

steps_refine_table_example :
    Refines numbers (run {E = ℕ} numbers commands (start ℕ true)) 1 two_pending
steps_refine_table_example =
    steps_refine_table numbers (run {E = ℕ} numbers commands (start ℕ true)) two_pending 1
      two_pending-Stands
