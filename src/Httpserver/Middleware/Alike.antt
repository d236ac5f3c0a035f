-- ===== src/Httpserver/Middleware/Alike.antt =====
-- The middleware around two handlers that do the same on some requests.
use wbsv.Common.{min, ◌≡◌, refl, ap, Bool, true, Option, some, [], ◌∷◌, Bytes, codes, ℤ}
use wbsv.Httpserver.App.{AppRequest, Writer, World, AppHandler}
use wbsv.Httpserver.Middleware.Cors.{
  write_cors_actual_headers, cors_allowed_origin, cors_middleware, CorsOptions,
}
use wbsv.Httpserver.Middleware.Recovery.{recovery_middleware}
use wbsv.Httpserver.Middleware.RequestId.{with_id, request_id_of, request_id_middleware}
use wbsv.Httpserver.Middleware.Logging.{read_clock, new_recorder, logging_middleware}
use wbsv.Httpserver.Middleware.Compression.{write_compressed, gzip_middleware}
use wbsv.Httpserver.ResponseWriter.{new_response_writer}
use wbsv.Httpserver.Headers.{header_value_fold}
use wbsv.Http1.Request.{Request}

-- Two handlers do the same on the requests of a kind.
abbrev pub Alike : (Request → Type 0) → AppHandler → AppHandler → Type 0
Alike P a b =
    (request : AppRequest) (w : Writer) (world : World)
    → P request.http
    → a request w world ≡ b request w world

module _ (P : Request → Type 0) (a b : AppHandler) (same : Alike P a b) where
  pub request_id_middleware-Alike : Alike P (request_id_middleware a) (request_id_middleware b)
  unfolding request_id_middleware
  request_id_middleware-Alike request w world p =
      let (id, world') = request_id_of request.http.headers world in
      ap (with_id id) (same (record request { request_id = some id }) w world' p)

  pub logging_middleware-Alike : Alike P (logging_middleware true a) (logging_middleware true b)
  unfolding logging_middleware
  logging_middleware-Alike request w world p =
      let w1 = record w { recorders = new_recorder ∷ w.recorders } in
      rw (same request w1 (read_clock world).1 p) refl

  pub cors_middleware-Alike :
      (options : CorsOptions) → Alike P (cors_middleware options a) (cors_middleware options b)
  unfolding cors_middleware
  cors_middleware-Alike options request w world p =
      let origin = header_value_fold request.http.headers (codes "Origin") in
      let allowed = cors_allowed_origin origin options.allow_origins options.allow_credentials in
      rw
        (same request w world p, same request (write_cors_actual_headers w allowed options) world p)
        refl

  pub gzip_middleware-Alike :
      (gzip : Bytes → Option Bytes) (min : ℤ)
      → Alike P (gzip_middleware gzip min a) (gzip_middleware gzip min b)
  unfolding gzip_middleware
  gzip_middleware-Alike gzip min request w world p =
      ap (write_compressed gzip request min w)
        (same request (record { buffer = new_response_writer; recorders = [] }) world p)

  pub recovery_middleware-Alike :
      (logs : Bool) → Alike P (recovery_middleware logs a) (recovery_middleware logs b)
  unfolding recovery_middleware
  recovery_middleware-Alike logs request w world p = rw (same request w world p) refl
