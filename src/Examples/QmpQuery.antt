-- ===== src/Examples/QmpQuery.antt =====
-- examples/src/bin/qmp_query.rs: a handshake, a query, and then for ever the events that have come.
pub mod Rounds
pub mod Session
use qapi_rs.Prelude.{ℕ, zero, suc, String, Option, none, some, List, [], ◌∷◌, ◌++◌, map, Outcome}
use qapi_rs.Prelude.Text.{concat}
use qapi_rs.Spec.{IoError, Execute}
use qapi_rs.Qmp.{QmpMessage, Qmp, QapiCapabilities}
use qapi_rs.Codec.{Bytes}
use qapi_rs.Client.Wire.{Qapi, Writer}
use qapi_rs.Client.QmpClient.{Client, Never, new, events, execute, handshake, nop}
use qapi_rs.Examples.{expect, expect_answer, argument}

-- The commands that the program sends.
pub record Commands (Args : Type 0) : Type 0 where
  pub qmp_capabilities : Args
  pub query_status : Args
  pub query_version : Args

-- How what it prints is shown.
pub record Shows (Any Version Status Event : Type 0) : Type 0 where
  pub info : Qmp Any Version → String
  pub status : Status → String
  pub event : Event → String

-- What serde_json reads of a line, for the greeting and for the reply of each command.
pub record Reads (Any Event Version Caps Status VersionInfo : Type 0) : Type 0 where
  pub greeting : Bytes → Outcome IoError (QapiCapabilities Any Version)
  pub capabilities : Bytes → Outcome IoError (QmpMessage Any Event Caps)
  pub status : Bytes → Outcome IoError (QmpMessage Any Event Status)
  pub version : Bytes → Outcome IoError (QmpMessage Any Event VersionInfo)

module _ {Any Event Version Caps Status VersionInfo Args W : Type 0}
    (shows : Shows Any Version Status Event)
    (reads : Reads Any Event Version Caps Status VersionInfo) (x : Writer W (Execute Args Never))
    (commands : Commands Args) where
  abbrev pub event_line : Event → String
  event_line e = concat ("Got event: " ∷ shows.event e ∷ [])

  -- A round of the loop: what it prints comes behind what was printed.
  unfoldable pub round : Client W Event → List String → Option (Client W Event × List String)
  round c out =
      expect_answer (nop x commands.query_version reads.version c)
        λ d done. let (es, d') = events d in some (d', out ++ map event_line es)

  -- The first rounds of the loop, which has no end but a panic.
  unfoldable pub rounds : ℕ → Client W Event → List String → Option (Client W Event × List String)
  rounds zero c out = some (c, out)
  rounds (suc n) c out = elim (round c out) [ none ↦ none | some (d, out') ↦ rounds n d out' ]

  abbrev pub info_line : Qmp Any Version → String
  info_line info = concat ("QMP info: " ∷ shows.info info ∷ [])

  abbrev pub status_line : Status → String
  status_line status = concat ("VCPU status: " ∷ shows.status status ∷ [])

  unfoldable pub on_stream : ℕ → Qapi W → Option (Client W Event × List String)
  on_stream n stream =
      expect_answer
        (handshake reads.greeting x commands.qmp_capabilities reads.capabilities (new stream))
        λ c info.
          expect_answer (execute reads.status x commands.query_status c)
            λ d status. rounds n d (info_line info ∷ status_line status ∷ [])

  -- `main`, with that many rounds of its loop.
  unfoldable pub main :
      (String → Outcome IoError (Qapi W))
      → ℕ
      → Option String
      → Option (Client W Event × List String)
  unfolding on_stream
  main connect n arg =
      argument arg λ socket_addr. expect (connect socket_addr) λ stream. on_stream n stream
