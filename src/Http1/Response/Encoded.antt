-- ===== src/Http1/Response/Encoded.antt =====
-- The bytes of a response of fixed length (internal/http1/response.go).
use wbsv.Common.{
  ℕ, ◌≤◌, ◌≡◌, ◌∙◌, ◌⊎◌, true, false, not, ◌&&◌, ◌||◌, none, List, [], ◌∷◌, ◌++◌, append_assoc,
  arith, Bytes, length, All, All-map, bytes_eq, bytes_eq_iff, ltb_ℤ, pos,
}
use wbsv.GoText.{contains_any, format_int}
use wbsv.GoText.Cut.{contains_any-eq-false}
use wbsv.Http1.Errors.{malformed_response, ok}
use wbsv.Http1.LineReader.{crlf}
use wbsv.Http1.Header.{HeaderField, line_breaks}
use wbsv.Http1.Header.Field.{Avoids, IsField}
use wbsv.Http1.Request.{http_1_1, http_1_0}
use wbsv.Http1.Sink.{
  Sink, fail_when, fail_when-Writes, Writes-eq, with_closer-Writes, ◌>>◌, write, Writes,
  write-Writes, >>-Writes, with_closer,
}
use wbsv.Http1.Response.{
  Response, is_some, status_allows_body, write_header_field, write_headers, response_body_length,
  write_fixed_body, write_framed, version_of, reason_of, write_checked, write_response,
}
use wbsv.Http1.Response.Payload.{HasLength, fixed_bytes, write_fixed_body-Writes}
use wbsv.Http1.Response.Head.{
  header_bytes, write_header_field-Writes, kept, block, write_headers-Writes,
}
use wbsv.Http1.Response.Section.{
  IsField-IsClean, block-append, block-single, content_length_field, content_length_field-IsField,
}
use wbsv.Http1.Body.{max_alloc}

-- The bytes of the body of a response of fixed length.
abbrev pub body_bytes : Response → Bytes
body_bytes q = fixed_bytes q.body_reader q.body_length q.body

-- A response of fixed length that a client can read: a version of the two, a status of three digits
-- that goes with a body, a reason on one line, fields that a header line can carry, and a reader of
-- the body, if any, that has the announced length.
pub record IsSendable (q : Response) (status : ℕ) : Type 0 where
  pub version : (version_of q ≡ http_1_1) ⊎ (version_of q ≡ http_1_0)
  pub status_is : q.status_code ≡ pos status
  pub three_digits : (100 ≤ status) × (status ≤ 999)
  pub has_body : status_allows_body (pos status) ≡ true
  pub reason : Avoids line_breaks (reason_of q)
  pub headers : All IsField (kept false q.headers)
  pub fixed : q.chunked ≡ false
  pub length_is : response_body_length q ≡ pos (length (body_bytes q))
  pub reader : HasLength q.body_reader q.body_length
  pub small : length (body_bytes q) ≤ max_alloc

abbrev pub status_line : Response → Bytes
status_line q = version_of q ++ (b' ' ∷ (format_int q.status_code ++ (b' ' ∷ reason_of q)))

-- The fields that a client sees.
abbrev pub sent_fields : Response → List HeaderField
sent_fields q = kept false q.headers ++ content_length_field (length (body_bytes q)) ∷ []

abbrev pub encode : Response → Bytes
encode q = status_line q ++ (crlf ++ (block (sent_fields q) ++ (crlf ++ body_bytes q)))

version_known :
    (v : Bytes)
    → (v ≡ http_1_1) ⊎ (v ≡ http_1_0)
    → (not (bytes_eq v http_1_1) && not (bytes_eq v http_1_0)) ≡ false
version_known v h = ground (arith, bytes_eq_iff v http_1_1, bytes_eq_iff v http_1_0)

status_in_range :
    (n : ℕ) → 100 ≤ n → n ≤ 999 → (ltb_ℤ (pos n) (pos 100) || ltb_ℤ (pos 999) (pos n)) ≡ false
status_in_range n h k = ground arith

length_not_negative :
    (q : Response) (n : ℕ)
    → response_body_length q ≡ pos n
    → (is_some q.body_reader && ltb_ℤ q.body_length (pos 0) && not q.chunked) ≡ false
unfolding response_body_length
length_not_negative q n h = ground arith

length_fits :
    (q : Response) {status : ℕ}
    → IsSendable q status
    → (is_some q.body_reader && ltb_ℤ q.body_length (pos 0) && not false) ≡ false
length_fits q d = rw d.fixed at (length_not_negative q (length (body_bytes q)) d.length_is)

module _ (q : Response) (status : ℕ) (d : IsSendable q status) where
  framed-Writes :
      Writes
        (write_framed q)
        (header_bytes (content_length_field (length (body_bytes q))) ++ (crlf ++ body_bytes q))
  unfolding write_framed format_int
  framed-Writes =
      rw (d.status_is, d.has_body, d.fixed, d.length_is)
        (>>-Writes (write_header_field (content_length_field (length (body_bytes q))))
          (write crlf >> write_fixed_body q)
          (write_header_field-Writes (content_length_field (length (body_bytes q))) (
            IsField-IsClean (content_length_field (length (body_bytes q)))
              (content_length_field-IsField (length (body_bytes q)))))
          (>>-Writes (write crlf) (write_fixed_body q) (write-Writes crlf)
            (write_fixed_body-Writes q d.reader)))

  headers-Writes : Writes (write_headers q.chunked q.headers) (block (kept false q.headers))
  headers-Writes = rw d.fixed (
      write_headers-Writes false q.headers
        (All-map (λ f. IsField-IsClean f) (kept false q.headers) d.headers))

  abbrev framed_bytes : Bytes
  framed_bytes =
      header_bytes (content_length_field (length (body_bytes q))) ++ (crlf ++ body_bytes q)

  spelled :
      []
        ++ ((version_of q ++ (b' ' ∷ (format_int q.status_code ++ (b' ' ∷ (reason_of q ++ crlf)))))
            ++ (block (kept false q.headers) ++ framed_bytes))
      ≡ encode q
  spelled = simp (block-append, block-single, append_assoc)

  checked-Writes : Writes (write_checked q) (encode q)
  unfolding write_checked
  checked-Writes = Writes-eq (write_checked q) spelled (
      >>-Writes (fail_when (contains_any (reason_of q) line_breaks) malformed_response)
        (write
            (version_of q ++ (b' ' ∷ (format_int q.status_code ++ (b' ' ∷ (reason_of q ++ crlf)))))
          >> (write_headers q.chunked q.headers >> write_framed q))
        (fail_when-Writes (contains_any (reason_of q) line_breaks) malformed_response
          ((contains_any-eq-false (reason_of q) line_breaks).1 d.reason))
        (>>-Writes
          (write
            (version_of q ++ (b' ' ∷ (format_int q.status_code ++ (b' ' ∷ (reason_of q ++ crlf))))))
          (write_headers q.chunked q.headers >> write_framed q)
          (write-Writes
            (version_of q ++ (b' ' ∷ (format_int q.status_code ++ (b' ' ∷ (reason_of q ++ crlf))))))
          (>>-Writes (write_headers q.chunked q.headers) (write_framed q) headers-Writes
            framed-Writes)))

  write_response_checked :
      (s : Sink) → write_response q s ≡ with_closer q.body_closer (write_checked q) s
  unfolding write_response
  write_response_checked s = rw (
    version_known (version_of q) d.version,
    d.status_is,
    status_in_range status d.three_digits.0 d.three_digits.1,
    d.fixed,
    length_fits q d,
  )

  pub write_response-encode :
      (s : Sink)
      → s.room ≡ none
      → write_response q s ≡ record {
        outcome = ok tt;
        sink = record s { sent = s.sent ++ encode q; closed = q.body_closer || s.closed };
      }
  write_response-encode s room =
      write_response_checked s
      ∙ with_closer-Writes q.body_closer (write_checked q) s checked-Writes room
