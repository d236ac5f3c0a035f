-- ===== src/Http1.antt =====
-- The package internal/http1: reading requests from a connection and writing responses.
pub mod Errors
pub mod LineReader
pub mod Header
pub mod Body
pub mod Request
pub mod Sink
pub mod Response
pub mod Mime
pub mod Tests
