-- ===== src/Http1/Request/Valid.antt =====
-- `ReadRequest` against the form of a request.
use wbsv.Common.{
  ℕ, ◌≤◌, ◌≡◌, sym, ◌∙◌, ◌↔◌, inl, inr, Bool, true, false, not, ◌&&◌, List, [], arith, ltb,
  Bool-cases, Bytes, codes, length, take, any, bytes_eq, bytes_eq_iff, ℤ,
}
use wbsv.Http1.Errors.{
  missing_host, unsupported_transfer_encoding, Result, ok, err, ◌>>=◌, fail_if-eq-ok, >>=-eq-ok,
}
use wbsv.Http1.LineReader.{LineReader, read_line, over_limit}
use wbsv.Http1.LineReader.Lines.{
  Allows, IsLine, read_line_iff, over_limit_of_Allows, over_limit-Allows,
}
use wbsv.Http1.Header.{HeaderField, read_header_fields, content_length}
use wbsv.Http1.Header.Fields.{IsSection, read_header_fields_iff}
use wbsv.Http1.Header.Length.{
  is_length, AgreeOn, content_length_iff, content_length_missing_iff, content_length_cases,
}
use wbsv.Http1.Body.{max_alloc}
use wbsv.Http1.Body.Exact.{skip, body_result, read_fixed_body_lem}
use wbsv.Http1.Request.Line.{IsRequestLine, parse_request_line_iff}
use wbsv.Http1.Request.{
  RequestLine, Request, RequestLimits, http_1_1, has_non_empty_header, validate_request_headers,
  read_body, parse_request_line, read_request,
}

-- HTTP/1.1 asks for a Host, and no request has a Transfer-Encoding.
pub record HasValidHeaders (version : Bytes) (headers : List HeaderField) : Type 0 where
  pub host : version ≡ http_1_1 → has_non_empty_header headers (codes "Host") ≡ true
  pub identity : has_non_empty_header headers (codes "Transfer-Encoding") ≡ false

-- How the headers frame the body that stands in front of the reader `t`.
pub data Framed (headers : List HeaderField) (max_body : ℤ) (t : LineReader) (body : Bytes)
    (r' : LineReader) : Type 0 where
  absent : any is_length headers ≡ false → body ≡ [] → r' ≡ t → Framed headers max_body t body r'
  fixed :
      (n : ℕ)
      → any is_length headers ≡ true
      → AgreeOn n headers
      → n ≤ max_alloc
      → Allows max_body n
      → n ≤ length t.input
      → body ≡ take n t.input
      → r' ≡ skip n t
      → Framed headers max_body t body r'

-- The input of `r` begins with the request `q`, and `r'` is the reader behind it.
pub record IsRequest (r : LineReader) (limits : RequestLimits) (q : Request) (r' : LineReader)
    : Type 0 where
  pub line : Bytes
  pub after_line : LineReader
  pub after_headers : LineReader
  pub line_read : IsLine r line after_line
  pub line_form : IsRequestLine line q.request_line
  pub section : IsSection after_line q.headers after_headers
  pub few : Allows limits.max_headers (length q.headers)
  pub valid : HasValidHeaders q.request_line.version q.headers
  pub framed : Framed q.headers limits.max_body after_headers q.body r'

validate_request_headers_iff :
    (line : RequestLine) (headers : List HeaderField)
    → (validate_request_headers line headers ≡ ok tt) ↔ HasValidHeaders line.version headers
unfolding validate_request_headers
validate_request_headers_iff line headers = (
  λ h.
      let (host, h1) =
        fail_if-eq-ok
          (bytes_eq line.version http_1_1 && not (has_non_empty_header headers (codes "Host")))
          missing_host _ h in
      let (te, _) =
        fail_if-eq-ok (has_non_empty_header headers (codes "Transfer-Encoding"))
          unsupported_transfer_encoding _ h1 in
      record { host = λ e. ground (arith, bytes_eq_iff line.version http_1_1); identity = te },
  λ d. ground (arith, d.host, d.identity, bytes_eq_iff line.version http_1_1),
)

ok_pair :
    {A : Type 0} {B : Type 0} {a a' : A} {b b' : B}
    → ◌≡◌ {A = Result (A × B)} (ok (a, b)) (ok (a', b'))
    → (a ≡ a') × (b ≡ b')
ok_pair h = ground arith

body_result-eq-ok :
    (t : LineReader) (n : ℕ) (max_body : ℤ) {body : Bytes} {r' : LineReader}
    → body_result t n max_body ≡ ok (body, r')
    → Allows max_body n
      × (n ≤ max_alloc)
      × (n ≤ length t.input)
      × (body ≡ take n t.input)
      × (r' ≡ skip n t)
body_result-eq-ok t n max_body h = elim (Bool-cases (over_limit max_body n)) [
  | inl over ↦ cc (rw over at h)
  | inr within ↦ elim (Bool-cases (ltb max_alloc n)) [
    | inl huge ↦ cc (rw (within, huge) at h)
    | inr held ↦ elim (Bool-cases (ltb (length t.input) n)) [
      | inl short ↦ cc (rw (within, held, short) at h)
      | inr enough ↦
          let (body_is, r'_is) = ok_pair (rw (within, held, enough) at h) in
          (
            over_limit-Allows max_body n within,
            ground (arith, held),
            ground (arith, enough),
            sym body_is,
            sym r'_is,
          )
    ]
  ]
]

read_body_sound :
    (t : LineReader) (limits : RequestLimits) (headers : List HeaderField) (v : ℤ × Bool)
    {body : Bytes} {r' : LineReader}
    → content_length headers ≡ ok v
    → read_body t limits v ≡ ok (body, r')
    → Framed headers limits.max_body t body r'
unfolding read_body
read_body_sound t limits headers v {body} {r'} e h = elim (content_length_cases headers v e) [
  | inl none_found ↦
      let (body_is, r'_is) = ok_pair (rw none_found at h) in
      absent ((content_length_missing_iff headers).0 (rw none_found at e)) (sym body_is) (sym r'_is)
  | inr (n, found, small) ↦
      let (present, agree) = (content_length_iff headers n).0 (rw found at e) in
      let (allowed, held, enough, body_is, r'_is) =
        body_result-eq-ok t n limits.max_body
          (sym (read_fixed_body_lem t n limits.max_body small).0 ∙ (rw found at h)) in
      fixed n present agree held allowed enough body_is r'_is
]

read_body_complete :
    (t : LineReader) (limits : RequestLimits) (headers : List HeaderField) {body : Bytes}
    {r' : LineReader}
    → Framed headers limits.max_body t body r'
    → (content_length headers >>= read_body t limits) ≡ ok (body, r')
unfolding read_body
read_body_complete t limits headers (absent missing e same) =
    rw ((content_length_missing_iff headers).1 missing, e, same)
read_body_complete t limits headers (fixed n present agree small allowed enough e same) =
    rw
      (
        (content_length_iff headers n).1 (present, agree),
        (read_fixed_body_lem t n limits.max_body (omega (arith, small))).0,
        over_limit_of_Allows limits.max_body n allowed,
        not_short n max_alloc small,
        e,
        same,
      )
      (rw (not_short n (length t.input) enough))
  where
    not_short : (n m : ℕ) → n ≤ m → ltb m n ≡ false
    not_short n m h = ground arith

IsRequest-subst :
    {r : LineReader} {limits : RequestLimits} {q q' : Request} {s s' : LineReader}
    → q ≡ q'
    → s ≡ s'
    → IsRequest r limits q s
    → IsRequest r limits q' s'
IsRequest-subst e f d = rw (← e, ← f) d

read_request_sound :
    (r : LineReader) (limits : RequestLimits) (q : Request) (r' : LineReader)
    → read_request r limits ≡ ok (q, r')
    → IsRequest r limits q r'
unfolding read_request
read_request_sound r limits q r' h =
    let ((line, r1), line_ok, h1) = >>=-eq-ok (read_line r) _ h in
    let (request_line, form_ok, h2) = >>=-eq-ok (parse_request_line line) _ h1 in
    let ((headers, r2), section_ok, h3) =
      >>=-eq-ok (read_header_fields r1 limits.max_headers) _ h2 in
    let (_, valid_ok, h4) = >>=-eq-ok (validate_request_headers request_line headers) _ h3 in
    let (len, length_ok, h5) = >>=-eq-ok (content_length headers) _ h4 in
    let ((body, r3), body_ok, h6) = >>=-eq-ok (read_body r2 limits len) _ h5 in
    let (q_is, r'_is) = ok_pair h6 in
    let (section, few) = (read_header_fields_iff r1 limits.max_headers headers r2).0 section_ok in
    IsRequest-subst q_is r'_is (record {
      line = line;
      after_line = r1;
      after_headers = r2;
      line_read = (read_line_iff r line r1).0 line_ok;
      line_form = (parse_request_line_iff line request_line).0 form_ok;
      section = section;
      few = few;
      valid = (validate_request_headers_iff request_line headers).0 valid_ok;
      framed = read_body_sound r2 limits headers len length_ok body_ok;
    })

read_request_complete :
    (r : LineReader) (limits : RequestLimits) (q : Request) (r' : LineReader)
    → IsRequest r limits q r'
    → read_request r limits ≡ ok (q, r')
unfolding read_request
read_request_complete r limits q r' d =
    rw
      (
        (read_line_iff r d.line d.after_line).1 d.line_read,
        (parse_request_line_iff d.line q.request_line).1 d.line_form,
        (read_header_fields_iff d.after_line limits.max_headers q.headers d.after_headers).1
            (d.section, d.few),
        (validate_request_headers_iff q.request_line q.headers).1 d.valid,
      )
      (with_body (content_length q.headers)
        (read_body_complete d.after_headers limits q.headers d.framed))
  where
    with_body :
        (len : Result (ℤ × Bool))
        → (len >>= read_body d.after_headers limits) ≡ ok (q.body, r')
        → (len >>= λ l.
            ◌>>=◌ {A = Bytes × LineReader} {B = Request × LineReader}
              (read_body d.after_headers limits l)
              (λ b.
                ok
                  (record { request_line = q.request_line; headers = q.headers; body = b.0 }, b.1)))
          ≡ ok (q, r')
    with_body (err e) h = cc
    with_body (ok l) h = rw h

-- `ReadRequest` returns the request `q` and leaves the reader as `r'` exactly when the input begins
-- with `q`: a well-formed request line within the limit on lines; a header section within the limit
-- on headers, with a Host for HTTP/1.1 and with no Transfer-Encoding; and then no body if there is
-- no Content-Length, or the number of bytes on which all Content-Length fields agree, within the
-- limit on bodies and within what `make` can ask for.
pub read_request_iff :
    (r : LineReader) (limits : RequestLimits) (q : Request) (r' : LineReader)
    → (read_request r limits ≡ ok (q, r')) ↔ IsRequest r limits q r'
read_request_iff r limits q r' =
    (read_request_sound r limits q r', read_request_complete r limits q r')
