-- ===== src/Futures.antt =====
-- qapi/src/futures/mod.rs: the asynchronous client. The service sends commands, the events half
-- reads replies, and both share the table of pending commands.
pub mod World
pub mod Shared
pub mod Events
pub mod Stable
pub mod Ownership
pub mod Runs
pub mod Routing
pub mod Connection
pub mod Table
pub mod Shutdown
pub mod Wakeup
pub mod Spawned
