-- ===== src/Http1/Tests.antt =====
-- Tests of the package http1 on concrete bytes, and its theorems at them.
use wbsv.Common.{
  ◌≡◌, refl, ◌↔◌, inl, inr, true, false, none, some, [], ◌∷◌, arith, Bytes, codes, All, any, pos,
  negsuc,
}
use wbsv.GoText.{format_int, has_suffix, cut, split, trim, equal_fold, parse_int, has_prefix}
use wbsv.Http1.Errors.{invalid_content_length, too_many_headers, conflicting_header, err, eof, ok}
use wbsv.Http1.LineReader.{crlf, LineReader, read_line}
use wbsv.Http1.LineReader.Lines.{Allows, IsLine, read_line_iff}
use wbsv.Http1.Header.{
  HeaderField, parse_header_field, read_header_fields, parse_content_length_value, content_length,
}
use wbsv.Http1.Header.Field.{IsFieldLine, parse_header_field_iff}
use wbsv.Http1.Header.Fields.{
  here, IsFields, read_header_fields_too_many, IsSection, read_header_fields_iff,
}
use wbsv.Http1.Body.{read_fixed_body}
use wbsv.Http1.Request.{
  Request, RequestLimits, parse_request_line, read_request, validate_request_headers,
}
use wbsv.Http1.Header.Length.{content_length_iff, AgreeOn, is_length}
use mathlib.Core.List.{flatten}
use wbsv.Http1.Response.{
  response_body_length, write_chunked_body, status_allows_body, status_text, write_headers,
  write_response, Response,
}
use wbsv.Http1.Request.Line.{parse_request_line_iff, IsRequestLine}
use wbsv.Http1.Request.Valid.{read_request_iff, IsRequest}
use wbsv.Http1.Body.Exact.{read_fixed_body_lem, body_result}
use wbsv.Http1.Sink.{Writes, write, Sink}
use wbsv.Http1.Response.Head.{write_headers_iff, kept, IsClean}
use wbsv.Http1.Response.Encoded.{IsSendable}
use wbsv.Http1.Response.RoundTrip.{write_response-ReadsBack, ReadsBack}
use wbsv.Http1.Response.Payload.{write_chunked_body-IsChunked, IsChunked}

abbrev reader : Bytes → LineReader
reader input = record { input = input; ending = eof; max_line = pos 64; arrives = λ _. 1 }

abbrev text : Bytes
text = codes "POST /items HTTP/1.1\r\nHost: a\r\nContent-Length:  3\r\n\r\nxyzGET"

abbrev host : HeaderField
host = record { name = codes "Host"; value = codes "a" }

abbrev three : HeaderField
three = record { name = codes "Content-Length"; value = codes "3" }

abbrev posted : Request
posted = record {
  request_line = record {
    method = codes "POST";
    request_target = codes "/items";
    version = codes "HTTP/1.1";
  };
  headers = host ∷ three ∷ [];
  body = codes "xyz";
}

abbrev limits : RequestLimits
limits = record { max_headers = pos 100; max_body = pos 10 }

read_request-text : read_request (reader text) limits ≡ ok (posted, reader (codes "GET"))
unfolding read_request read_line has_prefix parse_request_line split read_header_fields cut trim
    parse_header_field validate_request_headers equal_fold content_length parse_content_length_value
    parse_int read_fixed_body has_suffix
read_request-text = refl

read_line_iff_example :
    (read_line (reader (codes "ab\r\nc")) ≡ ok (codes "ab", reader (codes "c")))
    ↔ IsLine (reader (codes "ab\r\nc")) (codes "ab") (reader (codes "c"))
read_line_iff_example = read_line_iff (reader (codes "ab\r\nc")) (codes "ab") (reader (codes "c"))

parse_header_field_iff_example :
    (parse_header_field (codes "Host: a") ≡ ok host) ↔ IsFieldLine (codes "Host: a") host
parse_header_field_iff_example = parse_header_field_iff (codes "Host: a") host

read_header_fields_iff_example :
    (read_header_fields (reader (codes "Host: a\r\n\r\nx")) (pos 2)
      ≡ ok (host ∷ [], reader (codes "x")))
    ↔ (IsSection (reader (codes "Host: a\r\n\r\nx")) (host ∷ []) (reader (codes "x"))
        × Allows (pos 2) 1)
read_header_fields_iff_example =
    read_header_fields_iff (reader (codes "Host: a\r\n\r\nx")) (pos 2) (host ∷ [])
      (reader (codes "x"))

abbrev many : LineReader
many = reader (codes "A: 1\r\nB: 2\r\n\r\n")

abbrev behind_first : LineReader
behind_first = reader (codes "B: 2\r\n\r\n")

abbrev field_a : HeaderField
field_a = record { name = codes "A"; value = codes "1" }

first-IsLine : IsLine many (codes "A: 1") behind_first
first-IsLine = record { splits = refl; lacks = omega arith; fits = inr (omega arith); same = refl }

second-IsLine : IsLine behind_first (codes "B: 2") (reader crlf)
second-IsLine = record { splits = refl; lacks = omega arith; fits = inr (omega arith); same = refl }

field_a-IsFieldLine : IsFieldLine (codes "A: 1") field_a
unfolding trim
field_a-IsFieldLine = record {
  raw = codes " 1";
  splits = refl;
  no_colon = omega arith;
  name_ne_nil = λ e. cc;
  name_avoids = (refl, tt);
  raw_avoids = (refl, (refl, tt));
  value_is = refl;
}

read_header_fields_too_many_example : read_header_fields many (pos 1) ≡ err too_many_headers
read_header_fields_too_many_example =
    read_header_fields_too_many many behind_first (reader crlf) (field_a ∷ []) b'B' (codes ": 2")
      (IsFields.field first-IsLine field_a-IsFieldLine here) (λ e. cc) second-IsLine

content_length_iff_example :
    (content_length (host ∷ three ∷ []) ≡ ok (pos 3, true))
    ↔ ((any is_length (host ∷ three ∷ []) ≡ true) × AgreeOn 3 (host ∷ three ∷ []))
content_length_iff_example = content_length_iff (host ∷ three ∷ []) 3

conflicting_lengths :
    content_length (three ∷ record { name = codes "content-length"; value = codes "4" } ∷ [])
    ≡ err conflicting_header
unfolding content_length equal_fold parse_content_length_value parse_int has_prefix
conflicting_lengths = refl

read_fixed_body_lem_example :
    (read_fixed_body (reader (codes "xyzGET")) (pos 3) (pos 10)
      ≡ body_result (reader (codes "xyzGET")) 3 (pos 10))
    × (read_fixed_body (reader (codes "xyzGET")) (negsuc 3) (pos 10) ≡ err invalid_content_length)
read_fixed_body_lem_example = read_fixed_body_lem (reader (codes "xyzGET")) 3 (pos 10) (omega arith)

parse_request_line_iff_example :
    (parse_request_line (codes "POST /items HTTP/1.1") ≡ ok posted.request_line)
    ↔ IsRequestLine (codes "POST /items HTTP/1.1") posted.request_line
parse_request_line_iff_example =
    parse_request_line_iff (codes "POST /items HTTP/1.1") posted.request_line

read_request_iff_example :
    (read_request (reader text) limits ≡ ok (posted, reader (codes "GET")))
    ↔ IsRequest (reader text) limits posted (reader (codes "GET"))
read_request_iff_example = read_request_iff (reader text) limits posted (reader (codes "GET"))

abbrev idle : Sink
idle = record { sent = []; room = none; closed = false }

abbrev greeting : Response
greeting = record {
  version = [];
  status_code = pos 200;
  reason_phrase = [];
  headers = host ∷ record { name = codes "content-length"; value = codes "99" } ∷ [];
  body = codes "hi";
  body_reader = none;
  body_closer = true;
  body_length = pos 0;
  chunked = false;
}

greeting-bytes :
    (write_response greeting idle).sink.sent
    ≡ codes "HTTP/1.1 200 OK\r\nHost: a\r\nContent-Length: 2\r\n\r\nhi"
unfolding write_response write equal_fold has_prefix format_int status_text
greeting-bytes = refl

greeting-IsSendable : IsSendable greeting 200
unfolding status_text status_allows_body kept equal_fold has_prefix response_body_length
greeting-IsSendable = record {
  version = inl refl;
  status_is = refl;
  three_digits = omega arith;
  has_body = refl;
  reason = (refl, (refl, tt));
  headers = (
    record {
      no_colon = omega arith;
      name_ne_nil = λ e. cc;
      name_avoids = (refl, (refl, (refl, (refl, tt))));
      value_avoids = (refl, tt);
      value_trimmed = (refl, refl);
    },
    tt,
  );
  fixed = refl;
  length_is = refl;
  reader = tt;
  small = omega arith;
}

write_response-ReadsBack_example :
    (out : Bytes) × (write_response greeting idle
      ≡ record { outcome = ok tt; sink = record idle { sent = out; closed = true } })
    × ReadsBack greeting out (codes "HTTP") (record (reader []) { max_line = pos 0 })
write_response-ReadsBack_example =
    write_response-ReadsBack greeting 200 greeting-IsSendable idle
      (record (reader []) { max_line = pos 0 }) (codes "HTTP") refl (omega arith)

abbrev streamed : Response
streamed = record greeting {
  body_reader = some (record { chunks = codes "ab" ∷ [] ∷ codes "cde" ∷ []; ending = eof });
  chunked = true;
}

write_chunked_body-IsChunked_example :
    (out : Bytes) × Writes (write_chunked_body streamed) out × IsChunked out (codes "abcde")
unfolding flatten
write_chunked_body-IsChunked_example = write_chunked_body-IsChunked streamed refl

write_headers_iff_example :
    ((write_headers false greeting.headers idle).outcome ≡ ok tt)
    ↔ All IsClean (kept false greeting.headers)
write_headers_iff_example = write_headers_iff false greeting.headers idle refl
