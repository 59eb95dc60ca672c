-- ===== src/Tests.antt =====
-- Runs of the modelled code at concrete inputs, on small stand-ins for the libraries it calls.
mod Bytes
mod Codec
mod Clients
mod Futures
mod Services
mod Parsers
mod Schemas
mod Generator
mod Build
mod Programs
mod Connection
mod Enums
mod Transport
