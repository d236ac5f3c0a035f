-- ===== src/Http1/Response/Head.antt =====
-- The header fields of a response: which are written, and that none can break out of its line.
use wbsv.Common.{
  ◌≡◌, ap, ◌∙◌, ◌≢◌, ◌↔◌, inl, inr, Bool, true, false, not, ◌&&◌, ◌||◌, none, List, [], ◌∷◌, ◌++◌,
  arith, if◌then◌else◌, Bool-cases, Bytes, All,
}
use wbsv.GoText.{contains_any}
use wbsv.GoText.Cut.{contains_any-eq-false}
use wbsv.Http1.Errors.{malformed_response, ok, err}
use wbsv.Http1.LineReader.{crlf}
use wbsv.Http1.Header.{HeaderField, is_empty, line_breaks, white}
use wbsv.Http1.Header.Field.{Avoids, is_empty-eq-false, is_empty_of_ne_nil}
use wbsv.Http1.Sink.{Sink, Wrote, write, Writes, write-Writes, finish-Writes, >>-Writes}
use wbsv.Http1.Response.{is_framing, write_header_field, write_headers}

-- A header that stays on its line: a name with no white space, and a value with no line break.
pub record IsClean (h : HeaderField) : Type 0 where
  pub name_ne_nil : h.name ≢ []
  pub name_avoids : Avoids white h.name
  pub value_avoids : Avoids line_breaks h.value

-- The test that `writeHeaderField` makes.
abbrev pub is_clean : HeaderField → Bool
is_clean h =
    not (is_empty h.name || contains_any h.name white) && not (contains_any h.value line_breaks)

pub is_clean_iff : (h : HeaderField) → (is_clean h ≡ true) ↔ IsClean h
is_clean_iff h = (
  λ e. record {
    name_ne_nil = is_empty-eq-false (parts e).0;
    name_avoids = (contains_any-eq-false h.name white).0 (parts e).1;
    value_avoids = (contains_any-eq-false h.value line_breaks).0 (parts e).2;
  },
  λ d. rw (
    is_empty_of_ne_nil h.name d.name_ne_nil,
    (contains_any-eq-false h.name white).1 d.name_avoids,
    (contains_any-eq-false h.value line_breaks).1 d.value_avoids,
  ),
)
  where
    parts :
        is_clean h ≡ true
        → (is_empty h.name ≡ false)
          × (contains_any h.name white ≡ false)
          × (contains_any h.value line_breaks ≡ false)
    parts e = ground arith

-- The line of one header.
abbrev pub header_bytes : HeaderField → Bytes
header_bytes h = h.name ++ (b':' ∷ b' ' ∷ (h.value ++ crlf))

write_header_field_of_clean :
    (h : HeaderField) (s : Sink)
    → is_clean h ≡ true
    → write_header_field h s ≡ write (header_bytes h) s
unfolding write_header_field
write_header_field_of_clean h s e = ground arith

write_header_field_of_unclean :
    (h : HeaderField) (s : Sink)
    → is_clean h ≡ false
    → write_header_field h s ≡ record { outcome = err malformed_response; sink = s }
unfolding write_header_field
write_header_field_of_unclean h s e = ground arith

-- The fields that are written, in order.
unfoldable pub kept : Bool → List HeaderField → List HeaderField
kept chunked [] = []
kept chunked (h ∷ hs) =
    let rest = kept chunked hs in if is_framing chunked h then rest else h ∷ rest

unfoldable pub block : List HeaderField → Bytes
block [] = []
block (h ∷ hs) = header_bytes h ++ block hs

pub write_header_field-Writes :
    (h : HeaderField) → IsClean h → Writes (write_header_field h) (header_bytes h)
write_header_field-Writes h c s r =
    write_header_field_of_clean h s ((is_clean_iff h).1 c) ∙ write-Writes (header_bytes h) s r

-- If every field that is written is clean, the fields are written in order, one line each.
pub write_headers-Writes :
    (chunked : Bool) (hs : List HeaderField)
    → All IsClean (kept chunked hs)
    → Writes (write_headers chunked hs) (block (kept chunked hs))
unfolding write_headers kept block
write_headers-Writes chunked [] c = finish-Writes
write_headers-Writes chunked (h ∷ hs) c = elim (Bool-cases (is_framing chunked h)) [
  | inl framing ↦ rw framing (write_headers-Writes chunked hs (rw framing at c))
  | inr other ↦
      let both : All IsClean (h ∷ kept chunked hs) = rw other at c in
      rw other (
        >>-Writes (write_header_field h) (write_headers chunked hs)
          (write_header_field-Writes h both.0) (write_headers-Writes chunked hs both.1))
]

-- A field that is not clean is never written, and ends the response with an error.
write_headers_refuses :
    (chunked : Bool) (hs : List HeaderField) (s : Sink)
    → s.room ≡ none
    → (write_headers chunked hs s).outcome ≡ ok tt
    → All IsClean (kept chunked hs)
unfolding write_headers kept
write_headers_refuses chunked [] s r h = tt
write_headers_refuses chunked (f ∷ hs) s r h = elim (Bool-cases (is_framing chunked f)) [
  | inl framing ↦ rw framing (write_headers_refuses chunked hs s r (rw framing at h))
  | inr other ↦ elim (Bool-cases (is_clean f)) [
    | inl clean ↦ rw other (
      (is_clean_iff f).0 clean,
      write_headers_refuses chunked hs (record s { sent = s.sent ++ header_bytes f }) r
          (rw (write_header_field-Writes f ((is_clean_iff f).0 clean) s r) at (rw other at h)),
    )
    | inr unclean ↦ cc (rw (write_header_field_of_unclean f s unclean) at (rw other at h))
  ]
]

-- On a connection that takes everything, the loop over the headers succeeds exactly when every
-- field that it does not leave out is clean.
pub write_headers_iff :
    (chunked : Bool) (hs : List HeaderField) (s : Sink)
    → s.room ≡ none
    → ((write_headers chunked hs s).outcome ≡ ok tt) ↔ All IsClean (kept chunked hs)
write_headers_iff chunked hs s r = (
  write_headers_refuses chunked hs s r,
  λ c. ap (λ (w : Wrote). w.outcome) (write_headers-Writes chunked hs c s r),
)
