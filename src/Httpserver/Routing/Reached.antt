-- ===== src/Httpserver/Routing/Reached.antt =====
-- Requests that reach the handler that was registered for them (internal/httpserver/router.go).
use wbsv.Httpserver.Router.Dispatch.{Router}
