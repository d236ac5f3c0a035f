-- ===== src/Command/Tests.antt =====
-- Tests of cmd/wbsv on concrete flags, and its theorems at them.
use wbsv.Common.{◌≡◌, refl, ◌≢◌, true, false, Option, none, some, [], ◌∷◌, arith, Bytes, codes, pos}
use wbsv.Httpserver.App.{default_app_handler, AppRequest, AppHandler}
use wbsv.Command.{default_flags, http_handler, served_by, Flags}
use wbsv.Httpserver.Handler.{Ended, Conn, serve_conn}
use wbsv.Httpserver.Middleware.Auth.{bearer_credentials, bearer_token_matches}
use wbsv.Http1.Errors.{eof}
use wbsv.Httpserver.Middleware.Logging.Lines.{fresh}
use wbsv.Httpserver.Samples.{morning, get_of, header_field}
use wbsv.GoText.{cut, trim_right, trim_left, trim, trim_space, equal_fold}
use wbsv.Command.Returns.{http_handler-ne-crashed}
use wbsv.Command.Guards.{served_by-guarded}
use wbsv.Httpserver.Middleware.Auth.Bearer.{HasBearer, bearer_token_matches_iff}

abbrev private_flags : Flags
private_flags = record default_flags { auth_token = codes "secret" }

abbrev no_gzip : Bytes → Option Bytes
no_gzip body = none

abbrev crashing : AppHandler
crashing request w world = record { writer = w; world = world; panicked = true }

abbrev asked : AppRequest
asked = get_of (header_field (codes "Authorization") (codes "Bearer guess") ∷ [])

-- The token of the request is another.
bearer_token_matches-asked :
    bearer_token_matches asked.http.headers private_flags.auth_token ≡ false
unfolding bearer_token_matches bearer_credentials equal_fold trim_space trim trim_left trim_right
    cut
bearer_token_matches-asked = refl

asked-unauthorized : ¬ HasBearer private_flags.auth_token asked.http.headers
asked-unauthorized found = cc (
  bearer_token_matches-asked,
  (bearer_token_matches_iff asked.http.headers private_flags.auth_token).1 found,
)

served_by-guarded_example :
    served_by no_gzip private_flags (some crashing) asked fresh morning
    ≡ served_by no_gzip private_flags (some default_app_handler) asked fresh morning
served_by-guarded_example =
    served_by-guarded no_gzip private_flags crashing default_app_handler asked fresh morning
      (λ e. cc) asked-unauthorized

abbrev one_request : Conn
one_request = record {
  reader = record {
    input = codes "GET /a HTTP/1.1\r\nHost: x\r\nAuthorization: Bearer secret\r\n\r\n";
    ending = eof;
    max_line = pos 0;
    arrives = λ _. 7;
  };
  sink = record { sent = []; room = none; closed = false };
  world = morning;
  deadlines = λ _. (false, false);
}

http_handler-ne-crashed_example :
    (serve_conn (http_handler no_gzip private_flags (some crashing)) one_request).1 ≢ Ended.crashed
http_handler-ne-crashed_example =
    http_handler-ne-crashed no_gzip private_flags (some crashing) one_request (omega arith)
