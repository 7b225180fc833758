-- ===== src/Xml.antt =====
-- src/xml.rs: just enough XML for the answers of S3.
pub mod Safe
pub mod Entities
pub mod Walker
pub mod Documents
mod Tests
