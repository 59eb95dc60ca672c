-- ===== src/Futures/Runs.antt =====
-- Any history of the two halves of the client of qapi/src/futures/mod.rs, as a sequence of the
-- locked steps that change the shared state.
use qapi_rs.Prelude.{ℕ, ◌+◌, ◌≡◌, Bool, List, [], ◌∷◌, arith, ltb, if◌then◌else◌}
use qapi_rs.Qmp.{QmpMessage}
use qapi_rs.Futures.World.{World}
use qapi_rs.Futures.Shared
use qapi_rs.Futures.Shared.{command_insert, release, service_stop, events_drop}
use qapi_rs.Futures.Events.{AnyOps, Input, future_poll, stream_poll}
pub use qapi_rs.Futures.Stable.{response_of}
use qapi_rs.Futures.Stable.{IsStable, future_poll-stable, stream_poll-stable}
use qapi_rs.Futures.Ownership.{
  Owned, settled, held, command_insert-Owned, release-Owned, service_stop-Owned, events_drop-Owned,
  Owned-IsStable,
}

-- One locked step, by whichever task: a command enters the table, the reading half is polled as a
-- future or as a stream, it is released, or one of the halves is dropped.
pub data Op (Any E : Type 0) : Type 0 where
  command : ℕ → Op Any E
  polled_future polled_stream : (ℕ → Bool) → Input (QmpMessage Any E Any) → Op Any E
  released service_dropped events_dropped : Op Any E

-- A new client, before any command.
abbrev pub start : (Any : Type 0) → Bool → World Any
start Any supports_oob = record { shared = Shared.new supports_oob; next_channel = 0; log = [] }

pub start-Owned : (Any : Type 0) (supports_oob : Bool) → Owned (start Any supports_oob)
unfolding Shared.new settled held
start-Owned Any supports_oob c = ground arith

module _ {Any : Type 0} (ops : AnyOps Any) where
  -- A property that every locked step keeps.
  pub record IsKept (P : World Any → Type 0) : Type 0 where
    pub inserts : (id : ℕ) (w : World Any) → P w → P (command_insert id w).0
    pub releases : (w : World Any) → P w → P (release w).0
    pub service_stops : (w : World Any) → P w → P (service_stop w).0
    pub events_drops : (w : World Any) → P w → P (events_drop w).0
    pub polls : (alive : ℕ → Bool) → IsStable ops alive P

  pub Owned-IsKept : IsKept Owned
  Owned-IsKept = record {
    inserts = command_insert-Owned;
    releases = release-Owned;
    service_stops = service_stop-Owned;
    events_drops = events_drop-Owned;
    polls = Owned-IsStable ops;
  }

module _ {Any E : Type 0} (ops : AnyOps Any) where
  unfoldable pub step : Op Any E → World Any → World Any
  step (command id) w = (command_insert id w).0
  step (polled_future alive input) w = (future_poll ops response_of alive input w).0
  step (polled_stream alive input) w = (stream_poll ops alive input w).0
  step released w = (release w).0
  step service_dropped w = (service_stop w).0
  step events_dropped w = (events_drop w).0

  unfoldable pub run : List (Op Any E) → World Any → World Any
  run [] w = w
  run (o ∷ os) w = run os (step o w)

  pub step-kept :
      {P : World Any → Type 0} (k : IsKept ops P) (o : Op Any E) (w : World Any)
      → P w
      → P (step o w)
  unfolding step
  step-kept k (command id) w v = k.inserts id w v
  step-kept k (polled_future alive input) w v =
      future_poll-stable ops alive (k.polls alive) response_of input w v
  step-kept k (polled_stream alive input) w v =
      stream_poll-stable ops alive (k.polls alive) input w v
  step-kept k released w v = k.releases w v
  step-kept k service_dropped w v = k.service_stops w v
  step-kept k events_dropped w v = k.events_drops w v

  -- So it holds after any history.
  pub run-kept :
      {P : World Any → Type 0} (k : IsKept ops P) (os : List (Op Any E)) (w : World Any)
      → P w
      → P (run os w)
  unfolding run
  run-kept k [] w v = v
  run-kept k (o ∷ os) w v = run-kept k os (step o w) (step-kept k o w v)

  -- After any history of a new client, panics included, the sender of every command is in the
  -- table of pending commands or has been used up, and that exactly once: its reply was sent
  -- (or came back, the caller being gone), or it was dropped, which the caller sees as the end
  -- of the stream. No command is forgotten and none is answered twice.
  pub settled_once :
      (supports_oob : Bool) (os : List (Op Any E)) (ch : ℕ)
      → let w = run os (start Any supports_oob) in
        settled ch w.log + held ch w.shared.commands.pending
        ≡ (if ltb ch w.next_channel then 1 else 0)
  settled_once supports_oob os =
      run-kept (Owned-IsKept ops) os (start Any supports_oob) (start-Owned Any supports_oob)
