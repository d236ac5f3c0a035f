-- ===== src/Httpserver/Middleware/Compression/Bodies.antt =====
-- What a client gets from a handler behind the compression.
use wbsv.Common.{
  min, ◌≡◌, refl, ◌∙◌, ◌⊎◌, inl, inr, Bool, true, false, Option, none, some, List, [], ◌∷◌, ◌++◌,
  append-nil, append_assoc, arith, if◌then◌else◌, Bool-cases, Option-cases, Bytes, codes, ℤ, pos,
}
use wbsv.Http1.Header.{HeaderField}
use wbsv.Http1.Response.{Response}
use wbsv.Httpserver.App.{
  send_bytes, add, send_header, on_buffer, AppRequest, Writer, World, AppHandler, Recorder,
}
use wbsv.Httpserver.ResponseWriter.{
  use_chunked_encoding, write_bytes, write_header, new_response_writer, add_header, or_200, is_zero,
  response, ResponseWriter,
}
use wbsv.Httpserver.Headers.{without_header}
use wbsv.Httpserver.Middleware.Compression.{
  send_body, should_gzip_response, compress_response, gzip_fields, write_buffered_response,
  gzip_middleware, add_headers,
}
use wbsv.GoText.{equal_fold}

abbrev length_name : Bytes
length_name = codes "Content-Length"

without_header-append :
    (a b : List HeaderField) (name : Bytes)
    → without_header (a ++ b) name ≡ without_header a name ++ without_header b name
unfolding without_header
without_header-append [] b name = refl
without_header-append (h ∷ a) b name = elim (Bool-cases (equal_fold h.name name)) [
  | inl same ↦ rw (same, without_header-append a b name) refl
  | inr other ↦ rw (other, without_header-append a b name) refl
]

without_header_twice :
    (a : List HeaderField) (name : Bytes)
    → without_header (without_header a name) name ≡ without_header a name
unfolding without_header
without_header_twice [] name = refl
without_header_twice (h ∷ a) name = elim (Bool-cases (equal_fold h.name name)) [
  | inl same ↦ rw (same, without_header_twice a name) refl
  | inr other ↦ rw (other, other, without_header_twice a name) refl
]

with_headers : List HeaderField → Writer → Writer
with_headers headers w = on_buffer (λ b. record b { headers = b.headers ++ headers }) w

add_headers_lem :
    (headers : List HeaderField) (w : Writer)
    → add_headers headers w ≡ with_headers (without_header headers length_name) w
unfolding add_headers without_header with_headers add_header
add_headers_lem [] w = rw (append-nil w.buffer.headers) refl
add_headers_lem (h ∷ headers) w = elim (Bool-cases (equal_fold h.name length_name)) [
  | inl same ↦ rw (same, add_headers_lem headers w) refl
  | inr other ↦
      rw
        (
          other,
          add_headers_lem headers (add h.name h.value w),
          append_assoc w.buffer.headers (h ∷ []) (without_header headers length_name),
        )
        refl
]

-- The buffered writer that a client's response is made of.
abbrev pub sent_buffer : ℤ → List HeaderField → Bytes → Bool → ResponseWriter
sent_buffer status headers body chunked = record {
  status_code = status;
  headers = headers;
  body = body;
  body_reader = none;
  body_closer = false;
  body_length = pos 0;
  chunked = chunked;
}

or_200-nonzero : (n : ℤ) → is_zero (or_200 n) ≡ false
or_200-nonzero n = ground arith

or_200-same : (n : ℤ) → is_zero n ≡ false → or_200 n ≡ n
or_200-same n h = rw h refl

-- A response without a reader is written as it is, but for its Content-Length.
write_buffered_response_lem :
    (q : Response) (rs : List Recorder)
    → is_zero q.status_code ≡ false
    → q.body_reader ≡ none
    → (write_buffered_response (record { buffer = new_response_writer; recorders = rs }) q).buffer
      ≡ sent_buffer q.status_code (without_header q.headers length_name) q.body q.chunked
unfolding write_buffered_response new_response_writer with_headers send_header send_bytes
    write_header write_bytes use_chunked_encoding
write_buffered_response_lem q rs nonzero no_reader =
    rw
      (
        no_reader,
        add_headers_lem q.headers (record { buffer = new_response_writer; recorders = rs }),
      )
      (by_chunked q.chunked)
  where
    marked : Writer
    marked =
        with_headers (without_header q.headers length_name)
          (record { buffer = new_response_writer; recorders = rs })

    by_chunked :
        (chunked : Bool)
        → (send_body
            (record q { chunked = chunked })
            none
            (if chunked then on_buffer use_chunked_encoding marked else marked)).buffer
          ≡ sent_buffer q.status_code (without_header q.headers length_name) q.body chunked
    by_chunked true = rw (or_200-same q.status_code nonzero) refl
    by_chunked false = rw (or_200-same q.status_code nonzero) refl

module _ (gzip : Bytes → Option Bytes) (gunzip : Bytes → Option Bytes) where
  -- The response `sent` for what the handler left in `b`: the body as it is, or one that decompresses
  -- to it and is marked so; the status stays, and Content-Length goes.
  pub record Carries (b sent : ResponseWriter) : Type 0 where
    pub status : sent.status_code ≡ or_200 b.status_code
    pub chunked : sent.chunked ≡ b.chunked
    pub body :
        ((sent.body ≡ b.body) × (sent.headers ≡ without_header b.headers length_name))
        ⊎ ((gunzip sent.body ≡ some b.body)
            × (sent.headers ≡ without_header b.headers length_name ++ gzip_fields))

  compress_response-Carries :
      (request : AppRequest) (min : ℤ) (b : ResponseWriter) (rs : List Recorder)
      → ((body z : Bytes) → gzip body ≡ some z → gunzip z ≡ some body)
      → b.body_reader ≡ none
      → Carries b
          (write_buffered_response
            (record { buffer = new_response_writer; recorders = rs })
            (compress_response gzip request min (response b))).buffer
  unfolding response
  compress_response-Carries request min b rs lawful no_reader =
      elim (Bool-cases (should_gzip_response request (response b) min)) [
        | inr plain ↦ rw plain as_it_is
        | inl zipped ↦ rw zipped (elim (Option-cases (gzip b.body)) [
          | inl fails ↦ rw fails as_it_is
          | inr (z, e) ↦
              rw
                (
                  e,
                  write_buffered_response_lem
                      (record (response b) {
                        body = z;
                        headers = without_header b.headers length_name ++ gzip_fields;
                      })
                      rs (or_200-nonzero b.status_code) no_reader,
                )
                (record { status = refl; chunked = refl; body = inr (lawful b.body z e, twice) })
        ])
      ]
    where
      as_it_is :
          Carries b
            (write_buffered_response
              (record { buffer = new_response_writer; recorders = rs })
              (response b)).buffer
      as_it_is =
          rw (write_buffered_response_lem (response b) rs (or_200-nonzero b.status_code) no_reader)
            (record { status = refl; chunked = refl; body = inl (refl, refl) })

      twice :
          without_header (without_header b.headers length_name ++ gzip_fields) length_name
          ≡ without_header b.headers length_name ++ gzip_fields
      twice =
          without_header-append (without_header b.headers length_name) gzip_fields length_name
          ∙ rw (without_header_twice b.headers length_name)
              (unfold without_header equal_fold in refl)

-- Behind the compression a client gets what the handler wrote: the same status and headers, without a
-- Content-Length, and the body as it is or, marked as compressed, one that decompresses to it. The
-- handler returned, with a body that is not streamed, and decompression undoes compression.
pub gzip_middleware-Carries :
    (gzip gunzip : Bytes → Option Bytes) (min : ℤ) (next : AppHandler) (request : AppRequest)
    (rs : List Recorder) (world : World)
    → ((body z : Bytes) → gzip body ≡ some z → gunzip z ≡ some body)
    → let out = next request (record { buffer = new_response_writer; recorders = [] }) world in
      out.panicked ≡ false
      → out.writer.buffer.body_reader ≡ none
      → Carries gzip gunzip out.writer.buffer
          (gzip_middleware gzip min next request
            (record { buffer = new_response_writer; recorders = rs })
            world).writer.buffer
unfolding gzip_middleware
gzip_middleware-Carries gzip gunzip min next request rs world lawful returned no_reader =
    let out = next request (record { buffer = new_response_writer; recorders = [] }) world in
    rw returned
      (compress_response-Carries gzip gunzip request min out.writer.buffer rs lawful no_reader)
