-- ===== src/Schema.antt =====
-- parser/src/lib.rs, `mod spec`: the entries of a QAPI schema.
pub mod Types
pub mod Read
pub mod Text
pub mod Laws
