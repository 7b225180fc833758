-- ===== src/Upload.antt =====
-- The streamed upload: src/upload_writer.rs, src/upload_handle.rs, and the settling of
-- src/s3_client.rs.
pub mod State
pub mod Writer
pub mod Invariant
pub mod Stream
pub mod Count
pub mod Run
pub mod Delivery
pub mod Calls
pub mod Handle
pub mod Verdict
pub mod Pipe
mod Tests
