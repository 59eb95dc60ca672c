-- ===== src/Transport/Qga.antt =====
-- `QgaStreamTokio` of qapi/src/futures/tokio.rs.
use qapi_rs.Prelude.{false, Option, Outcome, ok, ◌>>=◌}
use qapi_rs.Spec.{IoError}
use qapi_rs.Futures.Shared.{Poll}
use qapi_rs.Futures.Shared as Shared
use qapi_rs.Transport.{Framed, framed, FramedPolls, QapiStream, new_service}

pub record QgaStreamTokio (S : Type 0) : Type 0 where
  pub stream : Framed S

-- `QgaStreamTokio::new`
new : {S : Type 0} → S → QgaStreamTokio S
new stream = record { stream = framed stream }

-- `pair`: the guest agent has no out-of-band commands.
pair :
    {R W : Type 0}
    → QgaStreamTokio R
    → QgaStreamTokio W
    → QapiStream (QgaStreamTokio R) (QgaStreamTokio W)
pair r w =
    let shared = Shared.new false in
    record { service = new_service w shared; events = record { stream = r; shared = shared } }

abbrev open_split : {R W : Type 0} → R → W → QapiStream (QgaStreamTokio R) (QgaStreamTokio W)
unfolding new pair
open_split read write = pair (new read) (new write)

-- `open`; `split` is tokio's.
abbrev open_ : {S R W : Type 0} → (S → R × W) → S → QapiStream (QgaStreamTokio R) (QgaStreamTokio W)
open_ split stream = let (r, w) = split stream in pair (new r) (new w)

-- `open_uds` and `open_tcp`; connecting is tokio's.
abbrev open_socket :
    {A S R W : Type 0}
    → (A → Outcome IoError S)
    → (S → R × W)
    → A
    → Outcome IoError (QapiStream (QgaStreamTokio R) (QgaStreamTokio W))
open_socket connect split addr = do
  socket ← connect addr
  let (r, w) = split socket
  ok (open_split r w)

-- `Stream` and `Sink`
module _ {S D I : Type 0} (x : FramedPolls S D I) where
  abbrev on_stream :
      {A : Type 0} → (Framed S → Framed S × A) → QgaStreamTokio S → QgaStreamTokio S × A
  on_stream f t = let (s, a) = f t.stream in (record { stream = s }, a)

  abbrev poll_next : QgaStreamTokio S → QgaStreamTokio S × Poll (Option (Outcome IoError D))
  poll_next = on_stream x.poll_next

  abbrev start_send : I → QgaStreamTokio S → QgaStreamTokio S × Outcome IoError (Unit {0})
  start_send item = on_stream (x.start_send item)

  abbrev poll_ready : QgaStreamTokio S → QgaStreamTokio S × Poll (Outcome IoError (Unit {0}))
  poll_ready = on_stream x.poll_ready

  abbrev poll_flush : QgaStreamTokio S → QgaStreamTokio S × Poll (Outcome IoError (Unit {0}))
  poll_flush = on_stream x.poll_flush

  abbrev poll_close : QgaStreamTokio S → QgaStreamTokio S × Poll (Outcome IoError (Unit {0}))
  poll_close = on_stream x.poll_close
