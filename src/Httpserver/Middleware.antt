-- ===== src/Httpserver/Middleware.antt =====
-- The middleware of internal/httpserver, one file each.
pub mod RequestId
pub mod Logging
pub mod Alike
pub mod Recovery
pub mod Returns
pub mod Auth
pub mod Limit
pub mod Cors
pub mod Compression
pub mod Tests
