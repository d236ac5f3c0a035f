-- ===== src/Httpserver/Middleware/Tests.antt =====
-- Tests of the middleware of httpserver on concrete values, and its theorems at them.
use wbsv.Common.{
  ℕ, ◌≡◌, refl, sym, ap, ◌≢◌, ◌⊎◌, true, false, not, Option, none, some, List, [], ◌∷◌, ◌++◌, arith,
  some-injective, Bytes, codes, any, bytes_eq, pos,
}
use wbsv.Httpserver.Cache.{
  set_last_modified, etag_value, response_etag_value, set_etag, write_not_modified,
}
use wbsv.Httpserver.Middleware.Logging.{logging_middleware}
use wbsv.Http1.Header.{is_empty}
use wbsv.Httpserver.App.Calls.{call, calling, WriterCall, run_calls}
use wbsv.Httpserver.Middleware.RequestId.{next_request_id}
use wbsv.Httpserver.ResponseWriter.{
  set_header, set_field, write_header, write_bytes, new_response_writer, response, ResponseWriter,
}
use wbsv.Httpserver.Middleware.Logging.Lines.{
  log_of_not_modified, logging_middleware-IsLogged, IsLogged, fresh, not_modified_handler,
}
use wbsv.Httpserver.Middleware.RequestId.Fresh.{next_request_id-differs, after_ids}
use wbsv.Httpserver.App.{LogLine, send_bytes, send_header}
use wbsv.Httpserver.Middleware.Cors.{any_origin, cors_allowed_origin}
use wbsv.Httpserver.Samples.{header_field, get_of, morning}
use wbsv.Httpserver.Middleware.Compression.Bodies.{gzip_middleware-Carries, Carries}
use wbsv.GoText.{has_prefix, trim_right, trim_left, trim_space, trim}
use wbsv.Httpserver.Middleware.Compression.{gzip_middleware}
use wbsv.Httpserver.Middleware.Cors.Origins.{accepts, cors_allowed_origin_lem}

next_request_id-differs_example :
    (next_request_id (after_ids 0 morning)).0 ≢ (next_request_id (after_ids 5 morning)).0
next_request_id-differs_example =
    next_request_id-differs morning 0 5 (omega arith) (omega arith) (omega arith)

abbrev site : Bytes
site = codes "https://a.example"

cors_allowed_origin_lem_example :
    (is_empty (cors_allowed_origin site (site ∷ any_origin ∷ []) false)
      ≡ not (any (accepts site) (site ∷ any_origin ∷ [])))
    × ((cors_allowed_origin site (site ∷ any_origin ∷ []) false ≡ [])
        ⊎ ((cors_allowed_origin site (site ∷ any_origin ∷ []) false ≡ site)
            ⊎ ((cors_allowed_origin site (site ∷ any_origin ∷ []) false ≡ any_origin)
                × (false ≡ false)
                × (any
                      (λ candidate. bytes_eq (trim_space candidate) any_origin)
                      (site ∷ any_origin ∷ [])
                    ≡ true))))
cors_allowed_origin_lem_example =
    cors_allowed_origin_lem site (site ∷ any_origin ∷ []) false (λ e. cc)

abbrev created : List WriterCall
created =
    WriterCall.sets (codes "Location") (codes "/a/1")
    ∷ WriterCall.sends_header (pos 201)
    ∷ WriterCall.sends_bytes (codes "made")
    ∷ WriterCall.sends_header (pos 500)
    ∷ []

logging_middleware-IsLogged_example :
    let out = logging_middleware true (calling created) (get_of []) fresh morning in
    IsLogged (get_of []) morning.log out.world.log out.writer.buffer
logging_middleware-IsLogged_example = logging_middleware-IsLogged created (get_of []) morning

abbrev unchanged : ResponseWriter
unchanged = record {
  status_code = pos 304;
  headers = header_field (codes "ETag") (codes "\"v1\"") ∷ [];
  body = [];
  body_reader = none;
  body_closer = false;
  body_length = pos 0;
  chunked = false;
}

write_not_modified-v1 :
    write_not_modified (λ t. []) new_response_writer (codes "v1") 0 ≡ some unchanged
unfolding write_not_modified set_etag response_etag_value etag_value trim trim_left trim_right
    has_prefix new_response_writer set_header set_field set_last_modified write_header bytes_eq
write_not_modified-v1 = refl

log_of_not_modified_example :
    let out =
      logging_middleware true
        (not_modified_handler (λ t. []) (codes "v1") 0)
        (get_of [])
        fresh
        morning in
    ((response out.writer.buffer).status_code ≡ pos 304)
    × ((elapsed : ℕ) × (out.world.log
          ≡ morning.log ++ LogLine.handled (codes "GET") (codes "/a?b") (pos 200) 0 elapsed ∷ []))
log_of_not_modified_example =
    log_of_not_modified (λ t. []) (codes "v1") 0 unchanged (get_of []) morning write_not_modified-v1

-- A stand-in for compression: one byte in front, which decompression takes off.
abbrev zip : Bytes → Option Bytes
zip body = some (0x1f ∷ body)

abbrev unzip : Bytes → Option Bytes
unzip [] = none
unzip (c ∷ body) = some body

unzip-zip : (body z : Bytes) → zip body ≡ some z → unzip z ≡ some body
unzip-zip body z h = ap unzip (sym (some-injective _ _ h))

gzip_middleware-Carries_example :
    Carries zip unzip
      (calling created (get_of []) fresh morning).writer.buffer
      (gzip_middleware zip
        (pos 1)
        (calling created)
        (get_of (header_field (codes "Accept-Encoding") (codes "gzip") ∷ []))
        (record { buffer = new_response_writer; recorders = [] })
        morning).writer.buffer
unfolding run_calls send_header send_bytes
gzip_middleware-Carries_example =
    gzip_middleware-Carries zip unzip (pos 1) (calling created)
      (get_of (header_field (codes "Accept-Encoding") (codes "gzip") ∷ [])) [] morning unzip-zip
      refl (unfold call set_header write_header write_bytes new_response_writer in refl)
