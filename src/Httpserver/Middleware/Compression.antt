-- ===== src/Httpserver/Middleware/Compression.antt =====
-- internal/httpserver/compression.go: compressed responses. The compression itself is the standard
-- library's, and a parameter: `none` is its error.
pub mod Bodies
use wbsv.Common.{
  min, Bool, false, not, ◌&&◌, ◌||◌, Option, none, some, List, [], ◌∷◌, ◌++◌, if◌then◌else◌, Bytes,
  codes, length, ℤ, ◌-ℤ◌, ltb_ℤ, leb_ℤ, pos,
}
use wbsv.Http1.Header.{header_has_token, is_empty, HeaderField}
use wbsv.Http1.Response.{Response, Stream}
use wbsv.Httpserver.App.{
  add, send_header, send_bytes, on_buffer, AppRequest, Writer, Outcome, Middleware,
}
use wbsv.Httpserver.ResponseWriter.{
  stream_body, use_chunked_encoding, is_zero, response, new_response_writer,
}
use wbsv.GoText.{equal_fold}
use wbsv.Httpserver.Headers.{has_header, without_header}

-- `responseStatusAllowsBody`
unfoldable pub response_status_allows_body : ℤ → Bool
response_status_allows_body code =
    if leb_ℤ (pos 100) code && ltb_ℤ code (pos 200)
    then false
    else not (is_zero (code -ℤ pos 204)) && not (is_zero (code -ℤ pos 304))

abbrev pub at_least : ℤ → ℤ
at_least min = if ltb_ℤ min (pos 0) then pos 0 else min

-- `shouldGzipResponse`
unfoldable pub should_gzip_response : AppRequest → Response → ℤ → Bool
unfolding response_status_allows_body
should_gzip_response request response min =
    if ltb_ℤ (pos (length response.body)) (at_least min)
    then false
    else if is_empty response.body || not (response_status_allows_body response.status_code)
    then false
    else if has_header response.headers (codes "Content-Encoding")
    then false
    else header_has_token request.http.headers (codes "Accept-Encoding") (codes "gzip")

abbrev pub gzip_fields : List HeaderField
gzip_fields =
    record { name = codes "Content-Encoding"; value = codes "gzip" }
    ∷ record { name = codes "Vary"; value = codes "Accept-Encoding" }
    ∷ []

abbrev pub with_compressed : Response → Option Bytes → Response
with_compressed response none = response
with_compressed response (some compressed) = record response {
  body = compressed;
  headers = without_header response.headers (codes "Content-Length") ++ gzip_fields;
}

unfoldable pub add_headers : List HeaderField → Writer → Writer
add_headers [] w = w
add_headers (header ∷ headers) w =
    add_headers headers (
      if equal_fold header.name (codes "Content-Length") then w else add header.name header.value w)

abbrev pub send_body : Response → Option Stream → Writer → Writer
send_body response none w = send_bytes (send_header w response.status_code) response.body
send_body response (some reader) w =
    on_buffer (λ b. stream_body b reader response.body_closer response.body_length)
      (send_header w response.status_code)

-- `writeBufferedResponse`; whether the reader of a body can be closed is as before
unfoldable pub write_buffered_response : Writer → Response → Writer
unfolding add_headers
write_buffered_response w response =
    let marked = add_headers response.headers w in
    send_body response response.body_reader
      (if response.chunked then on_buffer use_chunked_encoding marked else marked)

module _ (gzip_bytes : Bytes → Option Bytes) where
  abbrev pub compress_response : AppRequest → ℤ → Response → Response
  compress_response request min response =
      if should_gzip_response request response min
      then with_compressed response (gzip_bytes response.body)
      else response

  -- what the middleware does once the handler has returned; after a panic nothing is written
  abbrev pub write_compressed : AppRequest → ℤ → Writer → Outcome → Outcome
  write_compressed request min w out =
      if out.panicked then record out { writer = w } else record out {
        writer =
            write_buffered_response w (compress_response request min (response out.writer.buffer));
      }

  -- `GzipCompressionMiddleware`
  unfoldable pub gzip_middleware : ℤ → Middleware
  unfolding should_gzip_response write_buffered_response
  gzip_middleware min next request w world =
      write_compressed request min w
        (next request (record { buffer = new_response_writer; recorders = [] }) world)
