-- ===== src/Command.antt =====
-- cmd/wbsv/main.go: the server that the command puts together from its flags.
pub mod Guards
pub mod Returns
pub mod Tests
use wbsv.Common.{
  ◌^◌, Bool, true, false, not, Option, some, List, [], ◌∷◌, ◌++◌, if◌then◌else◌, Bytes, codes, ℤ,
  ltb_ℤ, pos,
}
use wbsv.Httpserver.App.{chain, Middleware, AppHandler}
use wbsv.Httpserver.Handler.{Handler}
use wbsv.Tcpserver.{Server}
use wbsv.Httpserver.Middleware.Cors.{cors_middleware, CorsOptions}
use wbsv.Httpserver.Middleware.RequestId.{request_id_middleware}
use wbsv.Httpserver.Headers.{split_header_list}
use wbsv.Httpserver.Middleware.Logging.{logging_middleware}
use wbsv.Http1.Header.{is_empty}
use wbsv.Httpserver.Middleware.Compression.{gzip_middleware}
use wbsv.Httpserver.Middleware.Recovery.{recovery_middleware}
use wbsv.Httpserver.Middleware.Auth.{bearer_auth_middleware}
use wbsv.Httpserver.Middleware.Limit.{rate_limit_middleware}

-- The flags that reach the handler, and the limit on connections.
pub record Flags : Type 0 where
  pub read_timeout : ℤ
  pub write_timeout : ℤ
  pub max_line : ℤ
  pub max_headers : ℤ
  pub max_body : ℤ
  pub max_active_conns : ℤ
  pub auth_token : Bytes
  pub rate_limit : ℤ
  pub rate_window : ℤ
  pub cors_allow_origin : Bytes
  pub cors_allow_methods : Bytes
  pub cors_allow_headers : Bytes
  pub cors_allow_credentials : Bool
  pub cors_max_age : ℤ

-- The defaults of the flags, with durations in nanoseconds.
abbrev pub default_flags : Flags
default_flags = record {
  read_timeout = pos 30000000000;
  write_timeout = pos 30000000000;
  max_line = pos 8192;
  max_headers = pos 100;
  max_body = pos (2 ^ 20);
  max_active_conns = pos 0;
  auth_token = [];
  rate_limit = pos 0;
  rate_window = pos 60000000000;
  cors_allow_origin = [];
  cors_allow_methods = codes "GET, POST, PUT, PATCH, DELETE, OPTIONS";
  cors_allow_headers = [];
  cors_allow_credentials = false;
  cors_max_age = pos 0;
}

-- `splitCommaList`, which is the same loop as `splitHeaderList`
unfoldable pub split_comma_list : Bytes → List Bytes
split_comma_list value = split_header_list value

unfoldable pub cors_options : Flags → CorsOptions
unfolding split_comma_list
cors_options flags = record {
  allow_origins = split_comma_list flags.cors_allow_origin;
  allow_methods = split_comma_list flags.cors_allow_methods;
  allow_headers = split_comma_list flags.cors_allow_headers;
  expose_headers = [];
  allow_credentials = flags.cors_allow_credentials;
  max_age = flags.cors_max_age;
}

-- `server` as it starts, without its timeouts
unfoldable pub tcp_server : Flags → Server
tcp_server flags = record {
  max_active_conns = flags.max_active_conns;
  active_conns = [];
  rejected_conns = 0;
  shutting = false;
  wg = 0;
}

-- A middleware that a flag turns on; where it is off, nothing is appended.
abbrev pub only_if : Bool → Middleware → List (Option Middleware)
only_if test middleware = if test then some middleware ∷ [] else []

module _ (gzip_bytes : Bytes → Option Bytes) where
  -- the variable `middlewares`
  unfoldable pub middlewares : Flags → List (Option Middleware)
  unfolding cors_options
  middlewares flags =
      some request_id_middleware
      ∷ some (logging_middleware true)
      ∷ (only_if (not (is_empty flags.cors_allow_origin)) (cors_middleware (cors_options flags))
          ++ (some (gzip_middleware gzip_bytes (pos 1))
              ∷ some (recovery_middleware true)
              ∷ (only_if (not (is_empty flags.auth_token)) (bearer_auth_middleware flags.auth_token)
                  ++ only_if (ltb_ℤ (pos 0) flags.rate_limit)
                      (rate_limit_middleware flags.rate_limit flags.rate_window))))

  -- `appHandler` of the handler that is put together, around an application
  unfoldable pub served_by : Flags → Option AppHandler → AppHandler
  unfolding middlewares
  served_by flags app = chain app (middlewares flags)

  -- `httpHandler`, around an application; the command itself gives none
  unfoldable pub http_handler : Flags → Option AppHandler → Handler
  unfolding middlewares
  http_handler flags app = record {
    read_timeout = flags.read_timeout;
    write_timeout = flags.write_timeout;
    max_line = flags.max_line;
    max_headers = flags.max_headers;
    max_body = flags.max_body;
    app = app;
    middleware = middlewares flags;
  }
