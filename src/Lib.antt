-- ===== src/Lib.antt =====
-- The qapi-rs library: clients for QEMU's machine protocol (QMP) and guest agent (QGA), which
-- exchange lines of JSON over a socket.
--
-- The parts, and the files that model them:
--   * spec/src/lib.rs, the types of both protocols: Spec (errors, responses, `Execute`), Spec/Enum
--     (the trait `Enum` over a generated table), Spec/Base64 (fields of bytes), Spec/ErrorSerde (how
--     an error is written and read).
--   * qapi/src/futures/codec.rs, `JsonLinesCodec`: Codec has its state (`next_index`) and its
--     operations, one function each. Codec/Scan says what a stream of bytes means, with no buffer;
--     Codec/Decode and Codec/Bounds are about one call, Codec/Feed about a connection as
--     tokio-util's `Framed` drives it (`feed`, which ends at the first line that does not parse) and
--     about the same calls gone on with (`decode_all`), Codec/Encode about both directions.
--   * qmp/src/lib.rs, messages and greeting: Qmp.
--   * qapi/src/lib.rs, the blocking clients: Client/Wire (`Qapi`: `decode_line`, `encode_line`),
--     Client/Stream (the halves of a connection), Client/QmpClient and Client/QgaClient (the
--     structs `Qmp` and `Qga`). Client/Lines and Client/Replies are about their loops,
--     Client/Handshake about a session of QMP.
--   * qapi/src/futures/mod.rs, the asynchronous client. Futures/World is the state that both halves
--     share (`QapiShared`) and a log of what is asked of the `futures` crate: a channel is a
--     number, whose sender is in the table of pending commands until it is used. Futures/Shared
--     has the operations, each one step under the mutex, poisoning included; Futures/Events the
--     reading half (`response_id`, `handle_response`, the two polls of `QapiEvents`).
--     Futures/Runs has histories of those steps, Futures/Stable and Futures/Ownership what the
--     steps keep, Futures/Routing (Futures/Routing/Errors for its errors) and Futures/Shutdown are
--     about replies and the drops, and Futures/Connection about the reading half over the codec.
--     Futures/Table is the table of pending commands as a quotient that forgets the order of its
--     entries, Futures/Table/Steps the steps on it.
--   * `QapiService::execute` of the same file: Service has the phases of a call, cut where the
--     code awaits, Service/Steps the interleavings of any number of calls with the reading half as
--     a step relation, Service/Serial and Service/Tagged its two modes, Service/Stream and
--     Service/Task `QapiStream::execute`, which drives a call and the reading half in one task:
--     Service/Task has every await of the call in it, Service/Stream only the last one.
--     Service/Task/Polls and Service/Task/Answered are about that task. Service/Entered says what a
--     call has done when it has been given the sink, Service/Heard which replies a history has
--     read, and Service/Own whose reply a call is given. Service/Sync is what `guest_sync` makes of
--     an answer, Service/Tower the service of qapi/src/futures/tower.rs.
--     Futures/Spawned is the task of `into_future`, with Futures/Spawned/Ends about its end, and
--     Futures/Wakeup `stop` and `poll_next` on two threads, at the level of their accesses.
--   * qapi/src/futures/tokio.rs, the transports: Transport (what a `QapiStream` is put together of),
--     Transport/Qga and Transport/Qmp, and Transport/Spawn hands a reading half to an executor.
--     Transport/Greeting is about the bytes behind the greeting.
--   * qga/src/lib.rs: Guest, the exit status of a process in the guest.
--   * parser/src/lib.rs: Parser has `strip_comments` and the iterator `Parser`, Parser/Repo
--     `QemuFileRepo` and its contexts; Parser/Comments, Parser/Slices, Parser/Values, Parser/File
--     and Parser/Scopes are about them. Schema/Types has the entries of a schema and the tests on
--     them, Schema/Text how they are shown, Schema/Read the hand-written readers, and Schema/Laws is
--     about types and readers.
--   * codegen/src/lib.rs: Codegen has the spelling of names and types, and Codegen/Names is about
--     names. Codegen/Context is the struct `Context` with the steps of the generator, over
--     Codegen/Map, its sorted maps, of which Codegen/Map/Lookup has the laws. Codegen/Commands
--     and Codegen/Process are `process`, Codegen/Structs, Codegen/Unions and Codegen/Events the
--     three passes over what it has collected, and Codegen/Variants what a union is made of.
--     Codegen/Include is `include` and `codegen`, over Codegen/Paths. Codegen/Frame and its
--     children say which files a step leaves alone; Codegen/Process/Tables, whose child has the
--     proofs, reads what is written for an enumeration as tables; Codegen/Process/Collected,
--     Codegen/Variants/Complete, Codegen/Structs/Discriminators and the children of
--     Codegen/Include are about the passes and the files.
--   * qga/build.rs and qmp/build.rs: Build, the generator run on a crate's schema; Build/Reports is
--     about the lines that the scripts print.
--   * examples/src/bin: Examples. Examples/QmpQuery and Examples/GuestInfo are the programs over the
--     blocking clients, and Session in each is about a whole run; Examples/Tokio has the three over
--     tokio, whose `main` is taken over what it awaits.
--   * Tests and its children run the code at concrete inputs.
--
-- How they interact: `execute` enters a command into the table under an id, and writes it, through
-- the codec, to the sink; the reading half takes messages off the codec and routes each reply by
-- its id to the channel that `execute` awaits. The blocking clients write and read in turn.
--
-- Conventions. Prelude passes on the library's names and adds the tests and list functions on
-- native numbers. A result is `Outcome`: a value, an error, or a panic; a panic under the mutex
-- poisons it. Numbers are unbounded but where the code wraps or converts: ids are the counter
-- modulo 2^32, the counter wraps at 2^64, a reply's id must be below 2^32. Bytes are numbers.
--
-- Parameters: `Framed` of tokio-util (its parts are a record; Transport/Greeting has the
-- documentation of its next frame), `memchr` and `bytes` (`ByteOps`, with their documentation as
-- `IsDocumented`), serde_json's reader and writer, the file system, `io::Write`, `base64`, the
-- commands and events of the generated files, and serde_json's values (`Any`, with `AnyOps`).
--
-- Fuel: the loop of the QMP client's `read_response` runs on one round for each byte still to come
-- and one more (`enough`), since every round that goes on takes a line off; a round of `Framed`
-- runs on one call for each byte of the buffer and one more, for the same reason. `include` of the
-- generator runs on a depth, for which one more than the number of readable files is enough, and
-- on a number of entries in a file; its inner loop runs two rounds, since each visit leaves
-- no name that is due. The endless loop of qmp_query.rs is any number of its rounds.
--
-- Not modelled: sockets, and executors beyond the task that they are given (`spawn`), which are
-- tokio's; derived code, of serde and of `Debug`; logging; the tests of parser/src/lib.rs.
pub mod Prelude
pub mod Spec
pub mod Codec
pub mod Qmp
pub mod Futures
pub mod Client
pub mod Service
pub mod Transport
pub mod Guest
pub mod Codegen
pub mod Parser
pub mod Schema
pub mod Build
pub mod Examples
pub mod Tests
