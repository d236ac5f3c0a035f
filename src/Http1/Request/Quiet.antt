-- ===== src/Http1/Request/Quiet.antt =====
-- `ReadRequest` does not panic when the limit on bodies is one that `make` can ask for.
use wbsv.Common.{◌≡◌, Bool, true, false, List, [], ◌∷◌, arith, Bytes, ℤ, ◌≤ℤ◌, ltb_ℤ, pos}
use wbsv.Http1.Request.{
  split, RequestLimits, LineReader, HeaderField, read_body, parse_parts, RequestLine,
  parse_request_line, validate_request_headers, read_request,
}
use wbsv.Http1.Errors.{Calm->>=, Calm}
use wbsv.Http1.Header.{content_length, read_header_fields, HeaderField}
use wbsv.Http1.LineReader.{read_line, LineReader}
use wbsv.Http1.Body.{max_alloc}
use wbsv.Http1.Body.Quiet.{read_fixed_body-Calm}
use wbsv.Http1.LineReader.Quiet.{read_line-Calm}
use wbsv.GoText.{split}
use wbsv.Http1.Header.Quiet.{content_length-Calm, read_header_fields-Calm}

parse_parts-Calm : (parts : List Bytes) → Calm (parse_parts parts)
unfolding parse_parts
parse_parts-Calm (method ∷ target ∷ version ∷ []) = ground arith
parse_parts-Calm [] = tt
parse_parts-Calm (method ∷ []) = tt
parse_parts-Calm (method ∷ target ∷ []) = tt
parse_parts-Calm (method ∷ target ∷ version ∷ more ∷ parts) = tt

validate_request_headers-Calm :
    (line : RequestLine) (headers : List HeaderField) → Calm (validate_request_headers line headers)
unfolding validate_request_headers
validate_request_headers-Calm line headers = ground arith

pub read_request-Calm :
    (r : LineReader) (limits : RequestLimits)
    → ltb_ℤ (pos 0) limits.max_body ≡ true
    → limits.max_body ≤ℤ pos max_alloc
    → Calm (read_request r limits)
unfolding read_request parse_request_line read_body
read_request-Calm r limits limited small = Calm->>= (read_line r) _ (read_line-Calm r) (λ first.
    Calm->>= (parse_request_line first.0) _ (parse_parts-Calm (split b' ' first.0)) (λ line.
      Calm->>= (read_header_fields first.1 limits.max_headers) _
        (read_header_fields-Calm first.1 limits.max_headers)
        (λ section.
          Calm->>= (validate_request_headers line section.0) _
            (validate_request_headers-Calm line section.0)
            (λ valid. Calm->>= (content_length section.0) _ (content_length-Calm section.0) (λ len.
              Calm->>= (read_body section.1 limits len) _ (body len section.1) (λ read. tt))))))
  where
    body : (len : ℤ × Bool) (r : LineReader) → Calm (read_body r limits len)
    body (len, false) r = tt
    body (len, true) r = read_fixed_body-Calm r len limits.max_body limited small
