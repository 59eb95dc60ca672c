-- ===== src/Transport/Qmp.antt =====
-- `QmpStreamTokio` of qapi/src/futures/tokio.rs, and `QmpStreamNegotiation` of
-- qapi/src/futures/mod.rs.
use qapi_rs.Prelude.{Option, none, some, List, [], Outcome, ok, err, panic, any, ◌>>=◌}
use qapi_rs.Spec.{IoError, ErrorKind}
use qapi_rs.Codec
use qapi_rs.Qmp.{QapiCapabilities, KnownCapability, same_capability, capabilities}
use qapi_rs.Client.{ExecuteError, io_error_of_execute}
use qapi_rs.Futures.Shared.{Poll}
use qapi_rs.Futures.Shared as Shared
use qapi_rs.Transport.{Framed, framed, FramedPolls, QapiStream, new_service}

pub record QmpStreamTokio (S : Type 0) : Type 0 where
  pub stream : Framed S

-- `QmpStreamTokio::new`
pub new : {S : Type 0} → S → QmpStreamTokio S
new stream = record { stream = framed stream }

pub record QmpStreamNegotiation (S W Any VersionInfo : Type 0) : Type 0 where
  pub stream : QapiStream S W
  pub capabilities : QapiCapabilities Any VersionInfo

abbrev pub Opened : Type 0 → Type 0 → Type 0 → Type 0 → Type 0
Opened S W Any VersionInfo =
    QmpStreamNegotiation (QmpStreamTokio S) (QmpStreamTokio W) Any VersionInfo

-- The messages go on where the greeting's reader has stopped: on the same socket, with a new
-- codec, behind what has been read and not decoded.
unfoldable pub hand_over : {S : Type 0} → Framed S → Framed S
unfolding Codec.new
hand_over lines = record { io = lines.io; codec = Codec.new; read_buf = lines.read_buf }

module _ {S W Any VersionInfo : Type 0} where
  unfoldable pub opened :
      W → Framed S → QapiCapabilities Any VersionInfo → Opened S W Any VersionInfo
  unfolding hand_over
  opened write lines greeting =
      let shared = Shared.new (any same_capability (capabilities greeting)) in
      record {
        stream = record {
          service = new_service (new write) shared;
          events = record { stream = record { stream = hand_over lines }; shared = shared };
        };
        capabilities = greeting;
      }

  unfoldable pub after_greeting :
      W
      → Framed S × Option (Outcome IoError (QapiCapabilities Any VersionInfo))
      → Outcome IoError (Opened S W Any VersionInfo)
  unfolding opened
  after_greeting write (lines, none) =
      err (record { kind = ErrorKind.unexpected_eof; message = "QMP greeting expected" })
  after_greeting write (lines, some (err e)) = err e
  after_greeting write (lines, some panic) = panic
  after_greeting write (lines, some (ok greeting)) = ok (opened write lines greeting)

  module _
      (next : Framed S
        → Framed S × Option (Outcome IoError (QapiCapabilities Any VersionInfo))) where
    -- `open_split`; `next` is what `StreamExt::next` of the framed socket resolves to.
    unfoldable pub open_split : S → W → Outcome IoError (Opened S W Any VersionInfo)
    unfolding after_greeting
    open_split read write = after_greeting write (next (framed read))

    -- `open`; `split` is tokio's.
    abbrev open_ : {RW : Type 0} → (RW → S × W) → RW → Outcome IoError (Opened S W Any VersionInfo)
    open_ split stream = let (r, w) = split stream in open_split r w

    -- `open_uds` and `open_tcp`; connecting is tokio's.
    abbrev open_socket :
        {A RW : Type 0}
        → (A → Outcome IoError RW)
        → (RW → S × W)
        → A
        → Outcome IoError (Opened S W Any VersionInfo)
    open_socket connect split addr = do
      socket ← connect addr
      let (r, w) = split socket
      open_split r w

abbrev negotiated : {S Any Ok : Type 0} → S × Outcome (ExecuteError Any) Ok → Outcome IoError S
negotiated (s, ok done) = ok s
negotiated (s, err e) = err (io_error_of_execute e)
negotiated (s, panic) = panic

-- `negotiate_caps`, over `QapiStream::execute`; `negotiate` enables nothing.
module _ {S W Any VersionInfo Args Ok : Type 0} (qmp_capabilities : List KnownCapability → Args)
    (execute : Args → QapiStream S W → QapiStream S W × Outcome (ExecuteError Any) Ok) where
  abbrev negotiate_caps :
      List KnownCapability
      → QmpStreamNegotiation S W Any VersionInfo
      → Outcome IoError (QapiStream S W)
  negotiate_caps caps n = negotiated (execute (qmp_capabilities caps) n.stream)

  abbrev negotiate : QmpStreamNegotiation S W Any VersionInfo → Outcome IoError (QapiStream S W)
  negotiate = negotiate_caps []

-- `Stream` and `Sink`
module _ {S D I : Type 0} (x : FramedPolls S D I) where
  abbrev on_stream :
      {A : Type 0} → (Framed S → Framed S × A) → QmpStreamTokio S → QmpStreamTokio S × A
  on_stream f t = let (s, a) = f t.stream in (record { stream = s }, a)

  abbrev poll_next : QmpStreamTokio S → QmpStreamTokio S × Poll (Option (Outcome IoError D))
  poll_next = on_stream x.poll_next

  abbrev start_send : I → QmpStreamTokio S → QmpStreamTokio S × Outcome IoError (Unit {0})
  start_send item = on_stream (x.start_send item)

  abbrev poll_ready : QmpStreamTokio S → QmpStreamTokio S × Poll (Outcome IoError (Unit {0}))
  poll_ready = on_stream x.poll_ready

  abbrev poll_flush : QmpStreamTokio S → QmpStreamTokio S × Poll (Outcome IoError (Unit {0}))
  poll_flush = on_stream x.poll_flush

  abbrev poll_close : QmpStreamTokio S → QmpStreamTokio S × Poll (Outcome IoError (Unit {0}))
  poll_close = on_stream x.poll_close
