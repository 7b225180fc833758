-- ===== src/Client.antt =====
-- src/s3_client.rs: what the client makes of the storage's answers, when it asks again, and the
-- requests that it sends. The uploads' bodies are under `Upload`, since they share the writer's state.
pub mod Answers
pub mod Classify
pub mod Retries
pub mod Objects
pub mod Transport
pub mod Send
pub mod Payloads
pub mod Requests
pub mod Calls
pub mod Signed
pub mod Sends
pub mod Tracing
pub mod Console
pub mod ListQuery
pub mod Places
pub mod Repeats
pub mod Opening
pub mod Ranges
pub mod Setting
mod Tests
mod RunTests
mod StreamTests
