-- ===== src/Http1/Response.antt =====
-- internal/http1/response.go: writing one response.
pub mod Hex
pub mod Payload
pub mod Head
pub mod Section
pub mod Encoded
pub mod RoundTrip
use wbsv.Common.{
  ℕ, zero, suc, ◌+◌, ◌-◌, ◌/◌, ◌%◌, Bool, true, false, not, ◌&&◌, ◌||◌, Option, none, some, List,
  [], ◌∷◌, ◌++◌, ltb, leb, ◌==◌, if◌then◌else◌, Bytes, codes, length, take, bytes_eq, ℤ, pos_part,
  ltb_ℤ, pos, negsuc,
}
use wbsv.GoText.{contains_any, equal_fold, format_int}
use wbsv.Http1.Errors.{
  Ending, eof, timeout, broken, Error, unsupported_version, invalid_status_code, malformed_response,
  body_ended, body_timeout, body_broken, Result, ok, err,
}
use wbsv.Http1.Header.{HeaderField, is_empty, line_breaks, white}
use wbsv.Http1.LineReader.{crlf}
use wbsv.Http1.Request.{http_1_1, http_1_0}
use wbsv.Http1.Sink.{Writing, finish, fail, ◌>>◌, fail_when, write, with_closer}

-- A body reader, as the library's `io.Reader`: what its calls of `Read` deliver, and how it ends.
pub record Stream : Type 0 where
  pub chunks : List Bytes
  pub ending : Ending

-- `body_closer` says whether there is one.
pub record Response : Type 0 where
  pub version : Bytes
  pub status_code : ℤ
  pub reason_phrase : Bytes
  pub headers : List HeaderField
  pub body : Bytes
  pub body_reader : Option Stream
  pub body_closer : Bool
  pub body_length : ℤ
  pub chunked : Bool

abbrev pub is_some {ℓ} : {A : Type ℓ} → Option A → Bool
is_some none = false
is_some (some a) = true

-- the `switch` of `StatusText`
status_name : ℕ → Bytes
status_name n =
    if n == 101
    then codes "Switching Protocols"
    else if n == 200
    then codes "OK"
    else if n == 201
    then codes "Created"
    else if n == 204
    then codes "No Content"
    else if n == 304
    then codes "Not Modified"
    else if n == 400
    then codes "Bad Request"
    else if n == 401
    then codes "Unauthorized"
    else if n == 404
    then codes "Not Found"
    else if n == 405
    then codes "Method Not Allowed"
    else if n == 408
    then codes "Request Timeout"
    else if n == 411
    then codes "Length Required"
    else if n == 413
    then codes "Content Too Large"
    else if n == 416
    then codes "Range Not Satisfiable"
    else if n == 429
    then codes "Too Many Requests"
    else if n == 500
    then codes "Internal Server Error"
    else if n == 501
    then codes "Not Implemented"
    else codes "Status"

unfoldable pub status_text : ℤ → Bytes
unfolding status_name
status_text (pos n) = status_name n
status_text (negsuc n) = codes "Status"

unfoldable pub status_allows_body : ℤ → Bool
status_allows_body (pos n) =
    if leb 100 n && ltb n 200 then false else not (n == 204) && not (n == 304)
status_allows_body (negsuc n) = true

unfoldable pub write_header_field : HeaderField → Writing
write_header_field header = do
  fail_when (is_empty header.name || contains_any header.name white) malformed_response
  fail_when (contains_any header.value line_breaks) malformed_response
  write (header.name ++ (b':' ∷ b' ' ∷ (header.value ++ crlf)))

-- `%x`: the hexadecimal digits, on fuel
abbrev pub hex_digit : ℕ → ℕ
hex_digit d = if ltb d 10 then b'0' + d else b'a' + (d - 10)

hexadecimal : ℕ → ℕ → Bytes
hexadecimal zero n = []
hexadecimal (suc f) n =
    let front = hexadecimal f (n / 16) in
    if ltb n 16 then hex_digit n ∷ [] else front ++ hex_digit (n % 16) ∷ []

unfoldable pub format_hex : ℕ → Bytes
unfolding hexadecimal
format_hex n = hexadecimal (suc n) n

unfoldable pub write_chunk : Bytes → Writing
write_chunk body = do write (format_hex (length body) ++ crlf); write body; write crlf

-- the error of a reader that has ended, where EOF is none
abbrev pub stream_end : Error → Ending → Writing
stream_end at_eof eof = fail at_eof
stream_end at_eof timeout = fail body_timeout
stream_end at_eof broken = fail body_broken

abbrev pub after_stream : Ending → Writing
after_stream eof = finish
after_stream timeout = fail body_timeout
after_stream broken = fail body_broken

-- the loop of `writeChunkedReader`
unfoldable pub write_chunked_reader : List Bytes → Ending → Writing
write_chunked_reader [] ending = after_stream ending
write_chunked_reader ([] ∷ chunks) ending = write_chunked_reader chunks ending
write_chunked_reader ((c ∷ p) ∷ chunks) ending =
    write_chunk (c ∷ p) >> write_chunked_reader chunks ending

-- the body in `writeChunkedBody`
chunked_payload : Option Stream → Bytes → Writing
chunked_payload (some stream) body = write_chunked_reader stream.chunks stream.ending
chunked_payload none [] = finish
chunked_payload none (c ∷ body) = write_chunk (c ∷ body)

unfoldable pub write_chunked_body : Response → Writing
unfolding chunked_payload
write_chunked_body response = do
  chunked_payload response.body_reader response.body
  write (codes "0" ++ crlf ++ crlf)

unfoldable pub response_body_length : Response → ℤ
response_body_length response = elim response.body_reader [
  | some _ ↦ response.body_length
  | none ↦ pos (length response.body)
]

-- `io.CopyN`: the next `n` bytes, or an error where the reader ends before
unfoldable pub copy_n : List Bytes → Ending → ℕ → Writing
copy_n chunks ending zero = finish
copy_n [] ending (suc n) = stream_end body_ended ending
copy_n (c ∷ chunks) ending (suc n) =
    write (take (suc n) c) >> copy_n chunks ending (suc n - length c)

-- a negative length copies nothing
abbrev copy_length : ℤ → ℕ
copy_length = pos_part

fixed_payload : Option Stream → ℤ → Bytes → Writing
unfolding copy_n
fixed_payload (some stream) len body = copy_n stream.chunks stream.ending (copy_length len)
fixed_payload none len [] = finish
fixed_payload none len (c ∷ body) = write (c ∷ body)

unfoldable pub write_fixed_body : Response → Writing
unfolding fixed_payload
write_fixed_body response = fixed_payload response.body_reader response.body_length response.body

-- the fields that the loop of `WriteResponse` leaves out
abbrev pub is_framing : Bool → HeaderField → Bool
is_framing chunked header =
    equal_fold header.name (codes "Content-Length")
    || (chunked && equal_fold header.name (codes "Transfer-Encoding"))

unfoldable pub write_headers : Bool → List HeaderField → Writing
write_headers chunked [] = finish
write_headers chunked (header ∷ headers) =
    let rest = write_headers chunked headers in
    if is_framing chunked header then rest else write_header_field header >> rest

-- what follows the header fields of the application
write_framed : Response → Writing
unfolding status_allows_body write_header_field write_chunked_body response_body_length
    write_fixed_body
write_framed response =
    if not (status_allows_body response.status_code)
    then write crlf
    else if response.chunked
    then (do
      write_header_field (record { name = codes "Transfer-Encoding"; value = codes "chunked" })
      write crlf
      write_chunked_body response)
    else (do
      write_header_field (record {
        name = codes "Content-Length";
        value = format_int (response_body_length response);
      })
      write crlf
      write_fixed_body response)

abbrev pub version_of : Response → Bytes
version_of response = if is_empty response.version then http_1_1 else response.version

abbrev pub reason_of : Response → Bytes
reason_of response =
    if is_empty response.reason_phrase
    then status_text response.status_code
    else response.reason_phrase

-- `WriteResponse` behind the `defer` of the closer
write_checked : Response → Writing
unfolding write_headers write_framed
write_checked response = do
  fail_when (contains_any (reason_of response) line_breaks) malformed_response
  write (
      version_of response
      ++ (b' ' ∷ (format_int response.status_code ++ (b' ' ∷ (reason_of response ++ crlf)))))
  write_headers response.chunked response.headers
  write_framed response

unfoldable pub write_response : Response → Writing
unfolding write_checked bytes_eq
write_response response = do
  fail_when
      (not (bytes_eq (version_of response) http_1_1)
        && not (bytes_eq (version_of response) http_1_0))
      unsupported_version
  fail_when (ltb_ℤ response.status_code (pos 100) || ltb_ℤ (pos 999) response.status_code)
      invalid_status_code
  fail_when (response.chunked && not (bytes_eq (version_of response) http_1_1)) malformed_response
  fail_when
      (is_some response.body_reader && ltb_ℤ response.body_length (pos 0) && not response.chunked)
      malformed_response
  with_closer response.body_closer (write_checked response)
