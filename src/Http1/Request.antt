-- ===== src/Http1/Request.antt =====
-- internal/http1/request_line.go and request.go: one request from a connection.
pub mod Line
pub mod Quiet
pub mod Valid
use wbsv.Common.{Bool, true, false, not, ◌&&◌, ◌||◌, List, [], ◌∷◌, Bytes, codes, any, bytes_eq, ℤ}
use wbsv.GoText.{contains_any, split, equal_fold}
use wbsv.Http1.Errors.{
  Error, malformed_request_line, unsupported_version, missing_host, unsupported_transfer_encoding,
  Result, ok, err, ◌>>=◌, ◌>>◌, fail_if,
}
use wbsv.Http1.LineReader.{LineReader, read_line}
use wbsv.Http1.Header.{HeaderField, is_empty, read_header_fields, content_length}
use wbsv.Http1.Body.{read_fixed_body}

pub record RequestLine : Type 0 where
  pub method : Bytes
  pub request_target : Bytes
  pub version : Bytes

abbrev pub http_1_1 : Bytes
http_1_1 = codes "HTTP/1.1"

abbrev pub http_1_0 : Bytes
http_1_0 = codes "HTTP/1.0"

-- `"\r\n\t"`
abbrev pub control_white : Bytes
control_white = b'\r' ∷ b'\n' ∷ b'\t' ∷ []

-- `ParseRequestLine` behind its `strings.Split`
parse_parts : List Bytes → Result RequestLine
unfolding bytes_eq
parse_parts (method ∷ target ∷ version ∷ []) = do
  fail_if (is_empty method || is_empty target || is_empty version) malformed_request_line
  fail_if
      (contains_any method control_white
        || contains_any target control_white
        || contains_any version control_white)
      malformed_request_line
  fail_if (not (bytes_eq version http_1_1) && not (bytes_eq version http_1_0)) unsupported_version
  ok (record { method = method; request_target = target; version = version })
parse_parts _ = err malformed_request_line

unfoldable pub parse_request_line : Bytes → Result RequestLine
unfolding parse_parts
parse_request_line line = parse_parts (split b' ' line)

pub record Request : Type 0 where
  pub request_line : RequestLine
  pub headers : List HeaderField
  pub body : Bytes

pub record RequestLimits : Type 0 where
  pub max_headers : ℤ
  pub max_body : ℤ

unfoldable pub has_non_empty_header : List HeaderField → Bytes → Bool
has_non_empty_header headers name =
    any (λ (header : HeaderField). equal_fold header.name name && not (is_empty header.value))
      headers

unfoldable pub validate_request_headers : RequestLine → List HeaderField → Result (Unit {0})
unfolding has_non_empty_header bytes_eq
validate_request_headers line headers = do
  fail_if (bytes_eq line.version http_1_1 && not (has_non_empty_header headers (codes "Host")))
      missing_host
  fail_if (has_non_empty_header headers (codes "Transfer-Encoding")) unsupported_transfer_encoding
  ok tt

-- `if found { … }`: the body, which is nil where no length was found
read_body : LineReader → RequestLimits → ℤ × Bool → Result (Bytes × LineReader)
read_body r limits (len, false) = ok ([], r)
read_body r limits (len, true) = read_fixed_body r len limits.max_body

unfoldable pub read_request : LineReader → RequestLimits → Result (Request × LineReader)
unfolding read_body
read_request r limits = do
  (line, r1) ← read_line r
  request_line ← parse_request_line line
  (headers, r2) ← read_header_fields r1 limits.max_headers
  validate_request_headers request_line headers
  len ← content_length headers
  (body, r3) ← read_body r2 limits len
  ok (record { request_line = request_line; headers = headers; body = body }, r3)
