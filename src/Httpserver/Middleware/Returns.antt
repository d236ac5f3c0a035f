-- ===== src/Httpserver/Middleware/Returns.antt =====
-- The middleware around a handler that returns, or is recovered (internal/httpserver/recovery.go).
use wbsv.Common.{
  min, ◌≡◌, refl, inl, inr, Bool, false, Option, some, [], ◌∷◌, arith, Bool-cases, Bytes, codes, ℤ,
}
use wbsv.Httpserver.App.{AppRequest, Writer, World, AppHandler}
use wbsv.Httpserver.Middleware.Cors.{
  write_cors_actual_headers, cors_allowed_origin, cors_middleware, CorsOptions,
}
use wbsv.Httpserver.Middleware.Recovery.{recovery_middleware}
use wbsv.Httpserver.Middleware.RequestId.{request_id_of, request_id_middleware}
use wbsv.Httpserver.Middleware.Logging.{read_clock, new_recorder, logging_middleware}
use wbsv.Httpserver.Middleware.Compression.{gzip_middleware}
use wbsv.Httpserver.ResponseWriter.{new_response_writer}
use wbsv.Httpserver.Headers.{header_value_fold}

-- The handler returns, on every request.
abbrev pub Returns : AppHandler → Type 0
Returns handler =
    (request : AppRequest) (w : Writer) (world : World) → (handler request w world).panicked ≡ false

pub recovery_middleware-Returns :
    (logs : Bool) (next : AppHandler) → Returns (recovery_middleware logs next)
unfolding recovery_middleware
recovery_middleware-Returns logs next request w world =
    elim (Bool-cases ((next request w world).panicked)) [
      | inl panics ↦ rw panics refl
      | inr ends ↦ rw ends refl
    ]

module _ (next : AppHandler) (ends : Returns next) where
  pub gzip_middleware-Returns :
      (gzip : Bytes → Option Bytes) (min : ℤ) → Returns (gzip_middleware gzip min next)
  unfolding gzip_middleware
  gzip_middleware-Returns gzip min request w world =
      rw (ends request (record { buffer = new_response_writer; recorders = [] }) world) refl

  pub cors_middleware-Returns : (options : CorsOptions) → Returns (cors_middleware options next)
  unfolding cors_middleware
  cors_middleware-Returns options request w world =
      let origin = header_value_fold request.http.headers (codes "Origin") in
      let allowed = cors_allowed_origin origin options.allow_origins options.allow_credentials in
      let marked = write_cors_actual_headers w allowed options in
      ground (arith, ends request w world, ends request marked world)

  pub logging_middleware-Returns : (logs : Bool) → Returns (logging_middleware logs next)
  unfolding logging_middleware
  logging_middleware-Returns logs request w world =
      let w1 = record w { recorders = new_recorder ∷ w.recorders } in
      rw (ends request w1 (read_clock world).1) (ground arith)

  pub request_id_middleware-Returns : Returns (request_id_middleware next)
  unfolding request_id_middleware
  request_id_middleware-Returns request w world =
      let (id, world') = request_id_of request.http.headers world in
      rw (ends (record request { request_id = some id }) w world') (ground arith)
