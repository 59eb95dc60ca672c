-- ===== src/Tests/Programs.antt =====
-- Runs of the programs of examples/src/bin, on a peer whose lines are one letter.
use qapi_rs.Prelude.Int.{ℤ, pos}
use qapi_rs.Client.Handshake.{IsWriter}
use qapi_rs.Client.QgaClient
use qapi_rs.Examples.GuestInfo
use qapi_rs.Examples.GuestInfo.Session.{main_prints_version}
use qapi_rs.Prelude.{
  length, Option, none, ℕ, ◌≡◌, refl, String, some, List, [], ◌∷◌, Outcome, ok, arith,
}
use qapi_rs.Spec.{IoError, Response, result, from_command}
use qapi_rs.Codec.{Bytes}
use qapi_rs.Client.QmpClient.{Client}
use qapi_rs.Examples.QmpQuery.{Commands, Shows, Reads, main}
use qapi_rs.Examples.QmpQuery.Rounds.{Exchange}
use qapi_rs.Examples.QmpQuery.Session.{main_prints}
use qapi_rs.Tests.Clients.{reply_of, from_slice, connection, writer, from_greeting}

abbrev shows : Shows ℕ ℕ ℕ ℕ
shows = record { info = λ q. "qmp"; status = λ s. "running"; event = λ e. "event" }

abbrev reads : Reads ℕ ℕ ℕ ℕ ℕ ℕ
reads = record {
  greeting = from_greeting;
  capabilities = from_slice;
  status = from_slice;
  version = from_slice;
}

abbrev commands : Commands Bytes
commands = record {
  qmp_capabilities = b'c' ∷ [];
  query_status = b's' ∷ [];
  query_version = b'v' ∷ [];
}

-- A reply behind the events, each a letter.
abbrev replies : List (Bytes × ℕ) → Exchange ℕ ℕ ℕ
replies events = record { events = events; line = b'r' ∷ []; reply = reply_of b'r' }

abbrev peer : Bytes
peer = b'g' ∷ b'\n' ∷ b'r' ∷ b'\n' ∷ b'a' ∷ b'\n' ∷ b'r' ∷ b'\n' ∷ b'b' ∷ b'\n' ∷ b'r' ∷ b'\n' ∷ []

writer-IsWriter : IsWriter writer (λ item. item.arguments)
writer-IsWriter = record {
  serializes = λ item w. refl;
  writes = λ bytes w. refl;
  flushes = λ w. refl;
}

main_prints_example :
    (c : Client Bytes ℕ) × (main shows reads writer commands
        (λ a. ok (connection peer))
        1
        (some "socket")
      ≡ some (
        c,
        "QMP info: qmp" ∷ "VCPU status: running" ∷ "Got event: event" ∷ "Got event: event" ∷ [],
      ))
main_prints_example =
    main_prints shows reads writer (λ item. item.arguments) commands
      (record { serializes = λ item w. refl; writes = λ bytes w. refl; flushes = λ w. refl })
      (λ a. ok (connection peer)) "socket" (connection peer) (b'g' ∷ []) []
      (record { qmp = record { version = 9; capabilities = [] } }) (replies []) b'r'
      (replies ((b'a' ∷ [], b'a') ∷ [])) b'r' (replies ((b'b' ∷ [], b'b') ∷ [])) [] refl
      (ground arith, tt) refl (tt, (ground arith, tt), refl, unfold result in refl)
      (((ground arith, tt), refl, tt), (ground arith, tt), refl, unfold result in refl)
      (
        (b'r', (((ground arith, tt), refl, tt), (ground arith, tt), refl, unfold result in refl)),
        tt,
      )
      refl

-- An agent that answers `s` with 7, and any other line with the length of that line.
abbrev synced : Bytes → Outcome IoError (Response ℕ ℤ)
synced line = ok (Response.ok (record { return_ = pos 7; id = none }))

abbrev length_of : Bytes → Outcome IoError (Response ℕ ℕ)
length_of line = ok (Response.ok (record { return_ = length line; id = none }))

abbrev agent : Bytes
agent = b's' ∷ b'\n' ∷ b'i' ∷ b'i' ∷ b'\n' ∷ []

abbrev guest_run : Option (QgaClient.Client Bytes × String)
guest_run =
    GuestInfo.main synced length_of writer (λ n. b's' ∷ []) (b'i' ∷ []) (λ n. "9.0")
      (λ a. ok (connection agent)) (pos 7) (some "socket")

main_prints_version_example :
    (c : QgaClient.Client Bytes) × (guest_run ≡ some (c, "Guest Agent version: 9.0"))
    × (c.inner.r.unread ≡ [])
    × (c.inner.w ≡ b's' ∷ b'\n' ∷ b'i' ∷ b'\n' ∷ [])
unfolding result from_command
main_prints_version_example =
    main_prints_version synced length_of writer (λ item. item.arguments) (λ n. b's' ∷ [])
      (b'i' ∷ []) (λ n. "9.0") writer-IsWriter (λ a. ok (connection agent)) "socket"
      (connection agent) (pos 7) (b's' ∷ []) (b'i' ∷ b'i' ∷ b'\n' ∷ [])
      (Response.ok (record { return_ = pos 7; id = none })) refl (ground arith, tt) refl refl
      (b'i' ∷ b'i' ∷ []) [] (Response.ok (record { return_ = 3; id = none })) 3 refl
      (ground arith, (ground arith, tt)) refl refl refl
