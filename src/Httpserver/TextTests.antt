-- ===== src/Httpserver/TextTests.antt =====
-- Tests of the texts of httpserver: cookies, tags, events and the WebSocket handshake.
use wbsv.Httpserver.HeaderSafety.{Built, Built-write_headers}
use wbsv.Http1.Response.{write_headers}
use wbsv.Http1.Errors.{ok}
use wbsv.Httpserver.ResponseWriter.{ResponseWriter, new_response_writer, add_header}
use wbsv.Common.{
  ℕ, ◌≡◌, refl, ◌↔◌, true, false, Option, none, some, [], ◌∷◌, ◌++◌, Bytes, codes, bytes_eq, pos,
}
use wbsv.Httpserver.Cookie.{
  set_cookie, cookie_value_breaks, write_parts, plain_cookie, cookie_text, request_cookies, Cookie,
  set_cookie_value,
}
use wbsv.GoText.{
  decimal, format_nat, cut, has_prefix, extension_from, path_extension, format_int, trim_right,
  trim_left, split, equal_fold, trim,
}
use wbsv.Httpserver.Events.{
  replace_cr, replace_crlf, normalize_sse_data, write_fields, event_fields, ServerSentEvent,
  encode_server_sent_event,
}
use wbsv.Http1.Request.{Request}
use wbsv.Httpserver.WebSocket.{header_equals, web_socket_accept_value}
use wbsv.Http1.Mime.{type_in, content_type_by_path}
use wbsv.Httpserver.Events.Stream.{encode_server_sent_event-reads, text_lines, read_event}
use wbsv.Httpserver.Cache.{request_etag_matches, etag_value, response_etag_value}
use wbsv.Httpserver.Samples.{get_of, header_field}
use wbsv.Httpserver.WebSocket.Handshake.{web_socket_accept_value_iff, IsUpgrade}
use wbsv.Httpserver.Cookie.Pairs.{request_cookies-set_cookie_value, plain, cookie_header}
use wbsv.Http1.Header.{line_breaks, header_has_token}
use mathlib.Core.List.{map}
use wbsv.Httpserver.Headers.{header_value_fold}
use wbsv.Httpserver.Cache.Tags.{request_etag_matches-sent}
use wbsv.Http1.Header.Field.{Avoids}
use wbsv.Httpserver.Cookie.Attributes.{set_cookie_value-splits}
use wbsv.GoText.Cut.{contains_any-eq-false}

abbrev no_time : ℕ → Bytes
no_time t = codes "Thu, 01 Jan 1970 00:00:00 GMT"

abbrev sid : Cookie
sid = record (plain_cookie (codes "sid") (codes "a=1")) {
  path = codes "/";
  max_age = pos 60;
  http_only = true;
}

abbrev sid_text : Bytes
sid_text = codes "sid=a=1; Path=/; Max-Age=60; HttpOnly"

set_cookie_value-sid : set_cookie_value no_time sid ≡ some sid_text
unfolding set_cookie_value cookie_text write_parts format_int format_nat decimal
set_cookie_value-sid = refl

set_cookie_value-splits_example :
    (split b';' sid_text
      ≡ codes "sid=a=1" ∷ codes " Path=/" ∷ codes " Max-Age=60" ∷ codes " HttpOnly" ∷ [])
    × (cut b'=' (codes "sid=a=1") ≡ some (codes "sid", codes "a=1"))
    × Avoids line_breaks sid_text
unfolding format_nat decimal
set_cookie_value-splits_example =
    set_cookie_value-splits no_time sid sid_text
      (λ t. (contains_any-eq-false (no_time t) cookie_value_breaks).0 refl) set_cookie_value-sid

cookie-name : equal_fold (codes "cookie") (codes "Cookie") ≡ true
unfolding equal_fold
cookie-name = refl

request_cookies-set_cookie_value_example :
    request_cookies (header_field (codes "cookie") (cookie_header (sid ∷ sid ∷ [])) ∷ [])
    ≡ map plain (sid ∷ sid ∷ [])
request_cookies-set_cookie_value_example =
    request_cookies-set_cookie_value no_time (codes "cookie") (sid ∷ sid ∷ []) cookie-name
      ((sid_text, set_cookie_value-sid, refl), ((sid_text, set_cookie_value-sid, refl), tt))

response_etag_value-comma : response_etag_value (codes "v1,2") ≡ some (codes "\"v1,2\"")
unfolding response_etag_value etag_value trim trim_left trim_right has_prefix bytes_eq
response_etag_value-comma = refl

if_none_match-name : equal_fold (codes "if-none-match") (codes "If-None-Match") ≡ true
unfolding equal_fold
if_none_match-name = refl

-- A tag with a comma is not known again.
request_etag_matches-sent_example :
    request_etag_matches
      (header_field (codes "if-none-match") (codes "\"v1,2\"") ∷ [])
      (codes "v1,2")
    ≡ false
unfolding trim trim_left trim_right split bytes_eq
request_etag_matches-sent_example =
    request_etag_matches-sent (codes "v1,2") (codes "\"v1,2\"") (codes "if-none-match")
      response_etag_value-comma if_none_match-name

abbrev news : ServerSentEvent
news = record { id = codes "7"; event = []; text = codes "a\r\nb\rc"; retry = pos 50 }

abbrev news_text : Bytes
news_text = codes "id: 7\nretry: 50\ndata: a\ndata: b\ndata: c\n\n"

encode_server_sent_event-news : encode_server_sent_event news ≡ some news_text
unfolding encode_server_sent_event write_fields event_fields format_int format_nat decimal split
    normalize_sse_data replace_crlf replace_cr
encode_server_sent_event-news = refl

encode_server_sent_event-reads_example : read_event (split b'\n' (news_text ++ codes "id: 8\n")) ≡ (
  (codes "id", codes "7")
      ∷ (codes "retry", codes "50")
      ∷ (codes "data", codes "a")
      ∷ (codes "data", codes "b")
      ∷ (codes "data", codes "c")
      ∷ [],
  split b'\n' (codes "id: 8\n"),
)
unfolding text_lines format_nat decimal
encode_server_sent_event-reads_example =
    encode_server_sent_event-reads news news_text (codes "id: 8\n") encode_server_sent_event-news

abbrev upgrading : Request
upgrading =
    (get_of (
      header_field (codes "connection") (codes "keep-alive, Upgrade")
      ∷ header_field (codes "Upgrade") (codes "websocket")
      ∷ header_field (codes "Sec-WebSocket-Version") (codes "13")
      ∷ header_field (codes "Sec-WebSocket-Key") (codes "dGhlIHNhbXBsZSBub25jZQ==")
      ∷ [])).http

-- A stand-in for base64 that finds 16 bytes in anything.
abbrev sixteen_of : Bytes → Option Bytes
sixteen_of key = some (codes "the sample nonce")

web_socket_accept_value_iff_example :
    (web_socket_accept_value sixteen_of (λ s. s) (λ s. s) upgrading
      ≡ some (codes "dGhlIHNhbXBsZSBub25jZQ==258EAFA5-E914-47DA-95CA-C5AB0DC85B11"))
    ↔ IsUpgrade sixteen_of
        (λ s. s)
        (λ s. s)
        upgrading
        (codes "dGhlIHNhbXBsZSBub25jZQ==258EAFA5-E914-47DA-95CA-C5AB0DC85B11")
web_socket_accept_value_iff_example =
    web_socket_accept_value_iff sixteen_of (λ s. s) (λ s. s) upgrading
      (codes "dGhlIHNhbXBsZSBub25jZQ==258EAFA5-E914-47DA-95CA-C5AB0DC85B11")

web_socket_accept_value-accepts :
    web_socket_accept_value sixteen_of (λ s. s) (λ s. s) upgrading
    ≡ some (codes "dGhlIHNhbXBsZSBub25jZQ==258EAFA5-E914-47DA-95CA-C5AB0DC85B11")
unfolding web_socket_accept_value header_equals header_has_token header_value_fold equal_fold trim
    trim_left trim_right split
web_socket_accept_value-accepts = refl

content_type_by_path-page :
    content_type_by_path (codes "/a.b/Page.HTML") ≡ codes "text/html; charset=utf-8"
unfolding content_type_by_path type_in path_extension extension_from bytes_eq
content_type_by_path-page = refl

abbrev with_sid : ResponseWriter
with_sid = record {
  status_code = pos 0;
  headers = header_field (codes "Set-Cookie") sid_text ∷ [];
  body = [];
  body_reader = none;
  body_closer = false;
  body_length = pos 0;
  chunked = false;
}

set_cookie-sid : set_cookie no_time new_response_writer sid ≡ some with_sid
unfolding set_cookie set_cookie_value cookie_text write_parts format_int format_nat decimal
    new_response_writer add_header
set_cookie-sid = refl

Built-write_headers_example :
    (write_headers false with_sid.headers
      (record { sent = []; room = none; closed = false })).outcome
    ≡ ok tt
Built-write_headers_example =
    Built-write_headers no_time with_sid (record { sent = []; room = none; closed = false })
      (λ t. (contains_any-eq-false (no_time t) cookie_value_breaks).0 refl)
      (Built.cookie sid Built.untouched set_cookie-sid) refl
