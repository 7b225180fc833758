-- ===== src/Query.antt =====
-- src/utils.rs: the query strings of requests, encoded the way they are signed.
pub mod Encode
pub mod Canonical
pub mod Params
pub mod Order
pub mod Readback
mod Parts
mod Tests
