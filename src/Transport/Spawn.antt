-- ===== src/Transport/Spawn.antt =====
-- `spawn` and `spawn_tokio` of qapi/src/futures/mod.rs: the reading half is handed to an executor,
-- which is a parameter.
use qapi_rs.Prelude.{Outcome}
use qapi_rs.Transport.{QapiEvents, QapiService, QapiStream}
use qapi_rs.Futures.Spawned.{Spawned, fresh}

-- The task that `into_future` makes: not polled yet, and owner of the reading half.
abbrev Task : Type 0 → Type 0
Task S = Spawned × QapiEvents S

abbrev into_future : {S : Type 0} → QapiEvents S → Task S
into_future events = (fresh, events)

-- `QapiEvents::spawn`, over an executor that may refuse a task.
abbrev spawn :
    {S SpawnError : Type 0}
    → (Task S → Outcome SpawnError (Unit {0}))
    → QapiEvents S
    → Outcome SpawnError (Unit {0})
spawn executor events = executor (into_future events)

-- `QapiEvents::spawn_tokio`
abbrev spawn_events_tokio :
    {S JoinHandle : Type 0} → (Task S → JoinHandle) → QapiEvents S → JoinHandle
spawn_events_tokio tokio_spawn events = tokio_spawn (into_future events)

-- `QapiStream::spawn_tokio`
abbrev spawn_tokio :
    {R W JoinHandle : Type 0} → (Task R → JoinHandle) → QapiStream R W → QapiService W × JoinHandle
spawn_tokio tokio_spawn stream =
    let handle = spawn_events_tokio tokio_spawn stream.events in (stream.service, handle)
