-- ===== src/Httpserver/Tests.antt =====
-- Tests of the package httpserver on concrete values, and its theorems at them.
use wbsv.Common.{
  ℕ, ◌+◌, ◌-◌, ◌*◌, ◌<◌, ◌≡◌, refl, inl, inr, true, false, none, some, List, [], ◌∷◌, arith, Bytes,
  codes, bytes_eq, pos,
}
use wbsv.Http1.Header.{
  parse_header_field, read_header_fields, header_has_token, line_breaks, white, HeaderField,
}
use wbsv.Httpserver.RateLimit.{is_disabled, second, allow}
use wbsv.Httpserver.Range.Bounds.{request_byte_range-Within, Within}
use wbsv.Httpserver.RateLimit.Windows.{retry_after_exact, admitted_in_window, running, admitted}
use wbsv.Httpserver.Range.{
  byte_range, closed_byte_range, found, stream_range_refuses, request_byte_range, ByteRange,
  parse_range_number,
}
use wbsv.Httpserver.Headers.{header_value_fold}
use wbsv.GoText.{has_suffix, split, cut, trim, parse_int, equal_fold, has_prefix}
use wbsv.Httpserver.Handler.{
  line_limit, limits_of, should_close_connection, connection_close, app_handler,
  response_for_request, serve_conn, Conn, Handler,
}
use wbsv.Http1.Errors.{Result, eof}
use wbsv.Http1.LineReader.{read_line, LineReader}
use wbsv.Http1.Response.{response_body_length, status_allows_body, Response, status_text}
use wbsv.Http1.Response.Encoded.{IsSendable}
use wbsv.Httpserver.App.{wrap, chain, send_bytes, returns, AppHandler}
use wbsv.Httpserver.Samples.{get_of, morning}
use wbsv.Httpserver.Handler.Talk.{with_limit, serve_conn-Told, Told, Talk}
use wbsv.Http1.Response.Head.{kept}
use wbsv.Httpserver.ResponseWriter.{new_response_writer, response, write_bytes}
use wbsv.Http1.Request.{validate_request_headers, read_request, parse_request_line}
use wbsv.Http1.Header.{
  read_header_fields, parse_header_field, content_length, parse_content_length_value,
}
use wbsv.Http1.Body.{read_fixed_body}
use wbsv.Http1.LineReader.{read_line}
use wbsv.GoText.Cut.{contains_any-eq-false}
use wbsv.Http1.Request.{parse_request_line, read_request}
use wbsv.Httpserver.Middleware.Limit.{rate_limit_middleware}
use wbsv.Httpserver.Middleware.Logging.{read_clock}
use wbsv.Httpserver.Middleware.Limit.Passes.{response_for_request-rate_limit_middleware}

abbrev range_of : Bytes → List HeaderField
range_of value = record { name = codes "range"; value = value } ∷ []

abbrev two_to_nine : ByteRange
two_to_nine = record { start = pos 2; last = pos 9; len = pos 8 }

request_byte_range-clamped :
    request_byte_range (range_of (codes "bytes=2-99")) (pos 10) ≡ found two_to_nine
unfolding request_byte_range header_value_fold equal_fold trim has_prefix cut closed_byte_range
    parse_range_number parse_int byte_range
request_byte_range-clamped = refl

request_byte_range-Within_example :
    Within two_to_nine 10 × (stream_range_refuses two_to_nine (pos 10) ≡ false)
request_byte_range-Within_example =
    request_byte_range-Within (range_of (codes "bytes=2-99")) 10 two_to_nine (omega arith)
      request_byte_range-clamped

admitted_in_window_example : admitted (running 2 60 0 0) (100 ∷ 110 ∷ 120 ∷ []) ≡ 2
admitted_in_window_example =
    admitted_in_window 2 60 0 0 100 (110 ∷ 120 ∷ []) (omega arith) (omega arith) (inl refl)
      (omega arith, (omega arith, tt))

retry_after_exact_example :
    (r : ℕ) × (allow (running 2 (60 * second) 100 2) 200
      ≡ (running 2 (60 * second) 100 2, false, pos r))
    × (0 < r)
    × ((allow (running 2 (60 * second) 100 2) (200 + r * second)).1 ≡ true)
    × ((allow (running 2 (60 * second) 100 2) (200 + (r - 1) * second)).1 ≡ false)
retry_after_exact_example =
    retry_after_exact 2 (60 * second) 100 200 (omega arith) (omega arith) (omega arith)
      (omega arith) (omega arith)

abbrev echo_target : AppHandler
echo_target request w world = returns (send_bytes w request.http.request_line.request_target) world

abbrev hello : Handler
hello = record {
  read_timeout = pos 1;
  write_timeout = pos 1;
  max_line = pos 0;
  max_headers = pos 0;
  max_body = pos 0;
  app = some echo_target;
  middleware = [];
}

abbrev two_requests : Conn
two_requests = record {
  reader = record {
    input = codes "GET /a HTTP/1.1\r\nHost: x\r\n\r\nGET /b HTTP/1.0\r\n\r\nrest";
    ending = eof;
    max_line = pos 0;
    arrives = λ _. 7;
  };
  sink = record { sent = []; room = none; closed = false };
  world = morning;
  deadlines = λ _. (false, false);
}

abbrev client : LineReader
client = record { input = []; ending = eof; max_line = pos 0; arrives = λ _. 3 }

-- The answer of `hello` to a request for this target.
abbrev echoed : Bytes → List HeaderField → Response
echoed target headers = record {
  version = [];
  status_code = pos 200;
  reason_phrase = [];
  headers = headers;
  body = target;
  body_reader = none;
  body_closer = false;
  body_length = pos 0;
  chunked = false;
}

echoed_a-IsSendable : IsSendable (echoed (codes "/a") []) 200
unfolding status_text status_allows_body kept response_body_length
echoed_a-IsSendable = record {
  version = inl refl;
  status_is = refl;
  three_digits = omega arith;
  has_body = refl;
  reason = (refl, (refl, tt));
  headers = tt;
  fixed = refl;
  length_is = refl;
  reader = tt;
  small = omega arith;
}

echoed_b-IsSendable : IsSendable (echoed (codes "/b") (connection_close ∷ [])) 200
unfolding status_text status_allows_body kept equal_fold has_prefix response_body_length
echoed_b-IsSendable = record {
  version = inl refl;
  status_is = refl;
  three_digits = omega arith;
  has_body = refl;
  reason = (refl, (refl, tt));
  headers = (
    record {
      no_colon = omega arith;
      name_ne_nil = λ e. cc;
      name_avoids = (contains_any-eq-false (codes "Connection") white).0 refl;
      value_avoids = (contains_any-eq-false (codes "close") line_breaks).0 refl;
      value_trimmed = (refl, refl);
    },
    tt,
  );
  fixed = refl;
  length_is = refl;
  reader = tt;
  small = omega arith;
}

abbrev both : List Response
both = echoed (codes "/a") [] ∷ echoed (codes "/b") (connection_close ∷ []) ∷ []

Talk-both : Talk hello morning (with_limit hello two_requests.reader) both
unfolding Talk response_for_request app_handler chain wrap send_bytes write_bytes response
    new_response_writer should_close_connection header_has_token limits_of line_limit read_request
    read_line has_prefix parse_request_line split read_header_fields cut trim parse_header_field
    validate_request_headers equal_fold content_length parse_content_length_value parse_int
    read_fixed_body has_suffix bytes_eq
Talk-both = (refl, refl, inr (refl, (refl, refl, inl (refl, refl))))

serve_conn-Told_example : Told client [] both (serve_conn hello two_requests)
serve_conn-Told_example =
    serve_conn-Told hello client two_requests both (omega arith) refl (λ n. refl) Talk-both
      ((200, echoed_a-IsSendable), ((200, echoed_b-IsSendable), tt))

-- One request in an hour is let through, each time.
response_for_request-rate_limit_middleware_example :
    response_for_request
      (record hello { middleware = some (rate_limit_middleware (pos 1) (pos 3600000000000)) ∷ [] })
      morning
      (Result.ok ((get_of []).http, client))
    ≡ response_for_request hello (read_clock morning).1 (Result.ok ((get_of []).http, client))
unfolding is_disabled
response_for_request-rate_limit_middleware_example =
    response_for_request-rate_limit_middleware hello (pos 1) (pos 3600000000000) morning
      (get_of []).http client refl
