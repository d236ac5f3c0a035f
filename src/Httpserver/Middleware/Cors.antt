-- ===== src/Httpserver/Middleware/Cors.antt =====
-- internal/httpserver/cors.go: cross-origin requests.
pub mod Origins
use wbsv.Common.{
  Bool, not, ◌&&◌, List, [], ◌∷◌, if◌then◌else◌, Bytes, codes, bytes_eq, ℤ, ltb_ℤ, pos,
}
use wbsv.Http1.Request.{Request}
use wbsv.Httpserver.App.{add, send_header, returns, set, Writer, Middleware}
use wbsv.Httpserver.Headers.{split_header_list, header_value_fold}
use wbsv.Http1.Header.{is_empty}
use wbsv.GoText.{format_int, equal_fold, trim_space, join_text}

pub record CorsOptions : Type 0 where
  pub allow_origins : List Bytes
  pub allow_methods : List Bytes
  pub allow_headers : List Bytes
  pub expose_headers : List Bytes
  pub allow_credentials : Bool
  pub max_age : ℤ

abbrev pub any_origin : Bytes
any_origin = b'*' ∷ []

-- `corsAllowedOrigin`; the empty text is no origin
unfoldable pub cors_allowed_origin : Bytes → List Bytes → Bool → Bytes
cors_allowed_origin origin [] credentials = []
cors_allowed_origin origin (candidate ∷ allowed) credentials =
    let rest = cors_allowed_origin origin allowed credentials in
    if bytes_eq (trim_space candidate) any_origin
    then (if credentials then origin else any_origin)
    else if equal_fold (trim_space candidate) origin
    then origin
    else rest

-- `isCORSPreflight`
unfoldable pub is_cors_preflight : Request → Bool
is_cors_preflight request =
    equal_fold request.request_line.method (codes "OPTIONS")
    && not (is_empty (header_value_fold request.headers (codes "Access-Control-Request-Method")))

abbrev pub when : Bool → (Writer → Writer) → Writer → Writer
when test change w = if test then change w else w

abbrev pub comma_joined : List Bytes → Bytes
comma_joined = join_text (codes ", ")

-- `writeCORSActualHeaders`
unfoldable pub write_cors_actual_headers : Writer → Bytes → CorsOptions → Writer
write_cors_actual_headers w origin options =
    when (not (is_empty options.expose_headers))
      (set (codes "Access-Control-Expose-Headers") (comma_joined options.expose_headers))
      (when options.allow_credentials
        (set (codes "Access-Control-Allow-Credentials") (codes "true"))
        (when (not (bytes_eq origin any_origin)) (add (codes "Vary") (codes "Origin"))
          (set (codes "Access-Control-Allow-Origin") origin w)))

abbrev pub or_asked : List Bytes → List Bytes → List Bytes
or_asked configured asked = if is_empty configured then asked else configured

-- `writeCORSPreflightHeaders`
unfoldable pub write_cors_preflight_headers : Writer → Request → CorsOptions → Writer
write_cors_preflight_headers w request options =
    let methods =
      or_asked options.allow_methods
        (header_value_fold request.headers (codes "Access-Control-Request-Method") ∷ []) in
    let headers = or_asked options.allow_headers (
      split_header_list
        (header_value_fold request.headers (codes "Access-Control-Request-Headers"))) in
    when (ltb_ℤ (pos 0) options.max_age)
      (set (codes "Access-Control-Max-Age") (format_int options.max_age))
      (when (not (is_empty headers))
        (set (codes "Access-Control-Allow-Headers") (comma_joined headers))
        (set (codes "Access-Control-Allow-Methods") (comma_joined methods) w))

-- `CORSMiddleware`
unfoldable pub cors_middleware : CorsOptions → Middleware
unfolding write_cors_actual_headers write_cors_preflight_headers
cors_middleware options next request w world =
    let origin = header_value_fold request.http.headers (codes "Origin") in
    let allowed = cors_allowed_origin origin options.allow_origins options.allow_credentials in
    let marked = write_cors_actual_headers w allowed options in
    if is_empty origin
    then next request w world
    else if is_empty allowed
    then next request w world
    else if is_cors_preflight request.http
    then returns (send_header (write_cors_preflight_headers marked request.http options) (pos 204))
        world
    else next request marked world
