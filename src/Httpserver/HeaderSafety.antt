-- ===== src/Httpserver/HeaderSafety.antt =====
-- The headers that an application sets through the checked calls of its `ResponseWriter`
-- (internal/httpserver/response_writer.go, cookie.go, cache.go, sse.go) can be written.
pub mod Clean
use wbsv.Common.{ℕ, ◌≡◌, inl, inr, Bool, none, some, List, [], ◌∷◌, Bool-cases, Bytes, All, ℤ}
use wbsv.Http1.Response.Head.{write_headers_iff, kept, IsClean}
use mathlib.Core.Path.{subst}
use wbsv.Http1.Response.{is_framing, write_headers, Stream}
use wbsv.Httpserver.Cache.{
  not_modified_from, invalid_cache_header_value, write_not_modified, response_etag_value,
  set_cache_control, set_last_modified, set_etag, set_tag, quote, weak_prefix, star, etag_value,
}
use wbsv.Http1.Header.Field.{is_empty-eq-false, Avoids}
use wbsv.Httpserver.ResponseWriter.{
  is_zero, use_chunked_encoding, stream_body, write_bytes, write_header, add_header,
  new_response_writer, ResponseWriter, set_field, set_header,
}
use wbsv.Http1.Header.{blanks, white, line_breaks, is_empty, HeaderField}
use wbsv.GoText.{trim, one_of, has_suffix, has_prefix, equal_fold, contains_any}
use wbsv.GoText.Cut.{contains_any-eq-false}
use wbsv.Httpserver.Cookie.{set_cookie_value, add_cookie, Cookie, set_cookie, cookie_value_breaks}
use wbsv.Httpserver.Events.{encode_server_sent_event, write_encoded, write_event, ServerSentEvent}
use wbsv.Httpserver.Cookie.Attributes.{set_cookie_value-splits}
use wbsv.Http1.Sink.{Sink}
use wbsv.Http1.Errors.{ok}
use wbsv.Httpserver.HeaderSafety.Clean.{
  AllClean, write_header-AllClean, set_last_modified-AllClean, set_etag-AllClean,
  set_cookie-AllClean, set_cache_control-AllClean, write_not_modified-AllClean,
  write_event-AllClean,
}

module _ (format_time : ℕ → Bytes) where
  -- The writers that an application can come to by calls that check their headers, or set none.
  pub data Built : ResponseWriter → Type 0 where
    untouched : Built new_response_writer
    cookie :
        {w w' : ResponseWriter} (c : Cookie)
        → Built w
        → set_cookie format_time w c ≡ some w'
        → Built w'
    tag : {w w' : ResponseWriter} (etag : Bytes) → Built w → set_etag w etag ≡ some w' → Built w'
    cache :
        {w w' : ResponseWriter} (value : Bytes)
        → Built w
        → set_cache_control w value ≡ some w'
        → Built w'
    modified : {w : ResponseWriter} (t : ℕ) → Built w → Built (set_last_modified format_time w t)
    unchanged :
        {w w' : ResponseWriter} (etag : Bytes) (t : ℕ)
        → Built w
        → write_not_modified format_time w etag t ≡ some w'
        → Built w'
    event :
        {w w' : ResponseWriter} (e : ServerSentEvent)
        → Built w
        → write_event w e ≡ some w'
        → Built w'
    status : {w : ResponseWriter} (code : ℤ) → Built w → Built (write_header w code)
    bytes : {w : ResponseWriter} (p : Bytes) → Built w → Built (write_bytes w p)
    stream :
        {w : ResponseWriter} (reader : Stream) (closes : Bool) (n : ℤ)
        → Built w
        → Built (stream_body w reader closes n)
    chunks : {w : ResponseWriter} → Built w → Built (use_chunked_encoding w)

  module _ (clean : (t : ℕ) → Avoids cookie_value_breaks (format_time t)) where
    -- Every header of such a writer has a name without white space and a value without line breaks.
    Built-AllClean : {w : ResponseWriter} → Built w → AllClean w
    unfolding new_response_writer write_bytes stream_body use_chunked_encoding
    Built-AllClean Built.untouched = tt
    Built-AllClean (Built.cookie {w} {w'} c b e) =
        set_cookie-AllClean format_time clean w w' c (Built-AllClean b) e
    Built-AllClean (Built.tag {w} {w'} etag b e) =
        set_etag-AllClean format_time clean w w' etag (Built-AllClean b) e
    Built-AllClean (Built.cache {w} {w'} value b e) =
        set_cache_control-AllClean format_time clean w w' value (Built-AllClean b) e
    Built-AllClean (Built.modified {w} t b) =
        set_last_modified-AllClean format_time clean w t (Built-AllClean b)
    Built-AllClean (Built.unchanged {w} {w'} etag t b e) =
        write_not_modified-AllClean format_time clean w w' etag t (Built-AllClean b) e
    Built-AllClean (Built.event {w} {w'} e b is) =
        write_event-AllClean format_time clean w w' e (Built-AllClean b) is
    Built-AllClean (Built.status {w} code b) = write_header-AllClean w code (Built-AllClean b)
    Built-AllClean (Built.bytes {w} p b) = Built-AllClean b
    Built-AllClean (Built.stream {w} reader closes n b) = Built-AllClean b
    Built-AllClean (Built.chunks {w} b) = Built-AllClean b

kept-All :
    (P : HeaderField → Type 0) (chunked : Bool) (hs : List HeaderField)
    → All P hs
    → All P (kept chunked hs)
unfolding kept
kept-All P chunked [] h = tt
kept-All P chunked (f ∷ hs) (c, h) = elim (Bool-cases (is_framing chunked f)) [
  | inl framing ↦ rw framing (kept-All P chunked hs h)
  | inr other ↦ rw other (c, kept-All P chunked hs h)
]

-- An application that sets its headers only by the calls for cookies, entity tags, caching, dates and
-- events, whatever values it gives them, and goes on when one of them returns its error, ends with
-- headers that are all written, on a connection that takes everything: none of them makes
-- `writeHeaders` fail. Formatted times have no semicolon and no line break.
pub Built-write_headers :
    (format_time : ℕ → Bytes) (w : ResponseWriter) (s : Sink)
    → ((t : ℕ) → Avoids cookie_value_breaks (format_time t))
    → Built format_time w
    → s.room ≡ none
    → (write_headers w.chunked w.headers s).outcome ≡ ok tt
Built-write_headers format_time w s clean b room =
    (write_headers_iff w.chunked w.headers s room).1
      (kept-All IsClean w.chunked w.headers (Built-AllClean format_time clean b))
