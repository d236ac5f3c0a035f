-- ===== src/Httpserver.antt =====
-- The package internal/httpserver: what applications use.
pub mod Headers
pub mod Range
pub mod RangeResponse
pub mod RateLimit
pub mod ResponseWriter
pub mod Router
pub mod Handler
pub mod Cookie
pub mod Cache
pub mod Files
pub mod Events
pub mod HeaderSafety
pub mod App
pub mod Routing
pub mod Middleware
pub mod WebSocket
pub mod Samples
pub mod TextTests
pub mod Tests
