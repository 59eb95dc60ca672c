-- ===== src/Examples/QmpQuery/Session.antt =====
-- A session of examples/src/bin/qmp_query.rs: what it prints of what its peer sends.
use mathlib.Core.List.{append_assoc}
use qapi_rs.Prelude.{
  ◌≡◌, ap, ◌∙◌, String, some, List, [], ◌∷◌, ◌++◌, map, Outcome, ok, map_ok, map_err, length,
}
use qapi_rs.Spec.{IoError, Execute}
use qapi_rs.Qmp.{QapiCapabilities}
use qapi_rs.Codec.{Bytes, Absent}
use qapi_rs.Client.{qapi}
use qapi_rs.Client.Wire.{Qapi, Writer}
use qapi_rs.Client.QmpClient.{Client, Never, new, execute, handshake}
use qapi_rs.Client.Replies.{events_of}
use qapi_rs.Client.Handshake.{IsWriter, execute-Answered, handshake_agrees}
use qapi_rs.Examples.{expect, argument}
use qapi_rs.Examples.QmpQuery.{
  Commands, Shows, Reads, event_line, info_line, status_line, on_stream, main,
}
use qapi_rs.Examples.QmpQuery.Rounds.{
  Exchange, bytes_of, Gives, GiveAll, bytes_of_all, events_of_all, expect_answer-ok, Prints,
  rounds-Prints,
}

module _ {Any Event Version Caps Status VersionInfo Args : Type 0}
    (shows : Shows Any Version Status Event)
    (reads : Reads Any Event Version Caps Status VersionInfo)
    (x : Writer Bytes (Execute Args Never)) (json : Execute Args Never → Bytes)
    (commands : Commands Args) (wr : IsWriter x json) where
  on_stream-Prints :
      (stream : Qapi Bytes) (greet rest : Bytes) (caps : QapiCapabilities Any Version)
      (agree : Exchange Any Event Caps) (agreed : Caps) (state : Exchange Any Event Status)
      (status : Status) (ex : Exchange Any Event VersionInfo)
      (exs : List (Exchange Any Event VersionInfo))
      → Absent b'\n' greet
      → reads.greeting (greet ++ b'\n' ∷ []) ≡ ok caps
      → Gives reads.capabilities agree agreed
      → Gives reads.status state status
      → GiveAll reads.version (ex ∷ exs)
      → stream.r.unread
        ≡ greet ++ b'\n' ∷ bytes_of agree (bytes_of state (bytes_of_all (ex ∷ exs) rest))
      → (d : Client Bytes Event × List String) × (on_stream shows reads x commands
            (length (ex ∷ exs))
            stream
          ≡ some d)
        × Prints shows reads x json commands wr
            (info_line shows reads x commands caps.qmp
              ∷ status_line shows reads x commands status
              ∷ [])
            (events_of agree.events ++ (events_of state.events ++ events_of_all (ex ∷ exs)))
            rest
            d
  unfolding on_stream
  on_stream-Prints stream greet rest caps agree agreed state status ex exs g p ag st gs u =
      let last = bytes_of_all (ex ∷ exs) rest in
      let all = events_of_all (ex ∷ exs) in
      let lines : List String =
        info_line shows reads x commands caps.qmp
        ∷ status_line shows reads x commands status
        ∷ [] in
      let h =
        handshake reads.greeting x commands.qmp_capabilities reads.capabilities (new stream) in
      let (greeted, queue, left, written) =
        handshake_agrees reads.greeting x json commands.qmp_capabilities reads.capabilities
          agree.events greet agree.line (bytes_of state last) agree.reply caps (new stream) wr g p
          ag.0 ag.1 ag.2 u in
      let q = execute reads.status x commands.query_status h.0 in
      let (answer, written') =
        execute-Answered x json reads.status commands.query_status state.events state.line last
          state.reply h.0 wr st.0 st.1 st.2 left in
      let (d, e, (printed, queue', left')) =
        rounds-Prints shows reads x json commands wr ex exs rest q.0 lines gs answer.2 in
      (
        d,
        expect_answer-ok h caps.qmp _
              (greeted ∙ ap (λ r. some (map_ok (λ _. caps.qmp) (map_err qapi r))) ag.3)
            ∙ expect_answer-ok q status _ (answer.0 ∙ ap (λ r. some (map_err qapi r)) st.3)
            ∙ e,
        (
          printed
              ∙ ap (λ es. lines ++ map (event_line shows reads x commands) es)
                  (ap (λ qs. qs ++ all) (answer.1 ∙ ap (λ qs. qs ++ events_of state.events) queue)
                    ∙ append_assoc (events_of agree.events) (events_of state.events) all),
          queue',
          left',
        ),
      )

  -- The program over a socket that connects, whose peer sends a greeting, lines of events and the
  -- reply to each command, and a writer that takes every byte: after as many rounds of its loop
  -- as there are replies to them, at least one, it has printed the greeting, the status, and every
  -- event that has come, those before the first two replies included, once and in order.
  pub main_prints :
      (connect : String → Outcome IoError (Qapi Bytes)) (addr : String) (stream : Qapi Bytes)
      (greet rest : Bytes) (caps : QapiCapabilities Any Version) (agree : Exchange Any Event Caps)
      (agreed : Caps) (state : Exchange Any Event Status) (status : Status)
      (ex : Exchange Any Event VersionInfo) (exs : List (Exchange Any Event VersionInfo))
      → connect addr ≡ ok stream
      → Absent b'\n' greet
      → reads.greeting (greet ++ b'\n' ∷ []) ≡ ok caps
      → Gives reads.capabilities agree agreed
      → Gives reads.status state status
      → GiveAll reads.version (ex ∷ exs)
      → stream.r.unread
        ≡ greet ++ b'\n' ∷ bytes_of agree (bytes_of state (bytes_of_all (ex ∷ exs) rest))
      → (c : Client Bytes Event) × (main shows reads x commands connect
            (length (ex ∷ exs))
            (some addr)
          ≡ some (
            c,
            info_line shows reads x commands caps.qmp
                ∷ status_line shows reads x commands status
                ∷ map (event_line shows reads x commands) (
                    events_of agree.events ++ (events_of state.events ++ events_of_all (ex ∷ exs))),
          ))
  unfolding main expect argument
  main_prints connect addr stream greet rest caps agree agreed state status ex exs co g p ag st gs
        u =
      let (d, e, (printed, queue, left)) =
        on_stream-Prints stream greet rest caps agree agreed state status ex exs g p ag st gs u in
      (d.0, rw (main, co) (e ∙ ap (λ ps. some (d.0, ps)) printed))
