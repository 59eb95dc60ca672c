-- ===== src/Transport.antt =====
-- qapi/src/futures/tokio.rs, the transports over tokio, and the parts of qapi/src/futures/mod.rs
-- that they put together. `Framed` of tokio-util is its parts; what it does when it is polled is
-- a parameter.
pub mod Qga
pub mod Qmp
pub mod Greeting
pub mod Spawn
use qapi_rs.Prelude.{ℕ, Option, none, some, List, [], Outcome, ok, err, panic}
use qapi_rs.Spec.{IoError}
use qapi_rs.Codec.{Bytes, JsonLinesCodec, new}
use qapi_rs.Futures.World.{QapiShared}
use qapi_rs.Futures.Shared.{Poll}

-- `Framed` and `FramedParts`: the socket, the codec, and the bytes that have been read and not
-- decoded.
pub record Framed (S : Type 0) : Type 0 where
  pub io : S
  pub codec : JsonLinesCodec
  pub read_buf : Bytes

-- `Framed::from_parts(FramedParts::new(io, JsonLinesCodec::new()))`
unfoldable pub framed : {S : Type 0} → S → Framed S
unfolding new
framed io = record { io = io; codec = new; read_buf = [] }

-- The polls of a `Framed`, as a stream of frames and as a sink of items.
pub record FramedPolls (S D I : Type 0) : Type 0 where
  pub poll_next : Framed S → Framed S × Poll (Option (Outcome IoError D))
  pub start_send : I → Framed S → Framed S × Outcome IoError (Unit {0})
  pub poll_ready : Framed S → Framed S × Poll (Outcome IoError (Unit {0}))
  pub poll_flush : Framed S → Framed S × Poll (Outcome IoError (Unit {0}))
  pub poll_close : Framed S → Framed S × Poll (Outcome IoError (Unit {0}))

-- The struct `QapiService`, with its counter of ids at 0. Both halves hold the same `QapiShared`.
pub record QapiService (W : Type 0) : Type 0 where
  pub shared : QapiShared
  pub write : W
  pub id_counter : ℕ

abbrev pub new_service : {W : Type 0} → W → QapiShared → QapiService W
new_service write shared = record { shared = shared; write = write; id_counter = 0 }

pub record QapiEvents (S : Type 0) : Type 0 where
  pub stream : S
  pub shared : QapiShared

pub record QapiStream (R W : Type 0) : Type 0 where
  pub service : QapiService W
  pub events : QapiEvents R

-- `QapiStream::with_parts` and `into_parts`
abbrev with_parts : {R W : Type 0} → QapiService W → QapiEvents R → QapiStream R W
with_parts service events = record { service = service; events = events }

abbrev into_parts : {R W : Type 0} → QapiStream R W → QapiService W × QapiEvents R
into_parts s = (s.service, s.events)
