-- ===== src/Httpserver/Cache.antt =====
-- internal/httpserver/cache.go, with the cache headers of response_writer.go and `NotModified` of app.go.
-- A `time.Time` is the number of nanoseconds since the zero time; how a time is written and read as a
-- header is the standard library's, and a parameter.
pub mod Tags
use wbsv.Common.{
  ℕ, ◌-◌, ◌%◌, Bool, false, not, ◌&&◌, ◌||◌, Option, none, some, List, [], ◌∷◌, ◌++◌, leb, ◌==◌,
  if◌then◌else◌, Bytes, codes, drop, any, bytes_eq, pos,
}
use wbsv.Http1.Header.{line_breaks, blanks, is_empty, HeaderField}
use wbsv.Httpserver.ResponseWriter.{set_header, write_header, ResponseWriter}
use wbsv.Httpserver.Headers.{has_header}
use wbsv.GoText.{has_suffix, split, contains_any, equal_fold, trim, has_prefix}
use wbsv.Httpserver.RateLimit.{second}

abbrev pub quote : Bytes
quote = b'"' ∷ []

abbrev pub weak_prefix : Bytes
weak_prefix = b'W' ∷ b'/' ∷ []

abbrev pub star : Bytes
star = b'*' ∷ []

-- `responseETagValue` on the trimmed tag
unfoldable pub etag_value : Bytes → Option Bytes
etag_value etag =
    if is_empty etag || bytes_eq etag star || contains_any etag line_breaks
    then none
    else if has_prefix etag (weak_prefix ++ quote) && has_suffix etag quote
    then some etag
    else if has_prefix etag quote && has_suffix etag quote
    then some etag
    else if contains_any etag quote
    then none
    else some (b'"' ∷ (etag ++ quote))

-- `responseETagValue`; `none` is `ErrInvalidCacheHeader`
unfoldable pub response_etag_value : Bytes → Option Bytes
unfolding etag_value
response_etag_value etag = etag_value (trim blanks etag)

unfoldable pub weak_etag_value : Bytes → Bytes
weak_etag_value etag = if has_prefix etag weak_prefix then drop 2 etag else etag

-- one part of an If-None-Match header
abbrev pub etag_part_matches : Bytes → Bytes → Bool
etag_part_matches expected part =
    bytes_eq (trim blanks part) star
    || bytes_eq (weak_etag_value (trim blanks part)) (weak_etag_value expected)

unfoldable pub etag_headers_match : List HeaderField → Bytes → Bool
unfolding weak_etag_value
etag_headers_match headers expected =
    any
      (λ (header : HeaderField).
        equal_fold header.name (codes "If-None-Match")
        && any (etag_part_matches expected) (split b',' header.value))
      headers

abbrev pub etag_known : List HeaderField → Option Bytes → Bool
etag_known headers none = false
etag_known headers (some expected) = etag_headers_match headers expected

-- `requestETagMatches`
unfoldable pub request_etag_matches : List HeaderField → Bytes → Bool
unfolding response_etag_value etag_headers_match
request_etag_matches headers etag = etag_known headers (response_etag_value etag)

-- `invalidCacheHeaderValue`
abbrev pub invalid_cache_header_value : Bytes → Bool
invalid_cache_header_value value = is_empty value || contains_any value line_breaks

-- `SetCacheControl`; the writer stays as it is when the error is returned
unfoldable pub set_cache_control : ResponseWriter → Bytes → Option ResponseWriter
set_cache_control w value =
    if invalid_cache_header_value value
    then none
    else some (set_header w (codes "Cache-Control") value)

abbrev pub set_tag : ResponseWriter → Option Bytes → Option ResponseWriter
set_tag w none = none
set_tag w (some value) = some (set_header w (codes "ETag") value)

-- `SetETag`
unfoldable pub set_etag : ResponseWriter → Bytes → Option ResponseWriter
set_etag w etag = set_tag w (response_etag_value etag)

module _ (parse_time : Bytes → Option ℕ) where
  abbrev pub not_after : ℕ → Option ℕ → Bool
  not_after last_modified none = false
  not_after last_modified (some since) = leb (last_modified - last_modified % second) since

  -- the loop of `requestNotModifiedSince`: the first header of the name decides
  unfoldable pub first_since : List HeaderField → ℕ → Bool
  first_since [] last_modified = false
  first_since (header ∷ headers) last_modified =
      let rest = first_since headers last_modified in
      if equal_fold header.name (codes "If-Modified-Since")
      then not_after last_modified (parse_time header.value)
      else rest

  -- `requestNotModifiedSince`
  unfoldable pub request_not_modified_since : List HeaderField → ℕ → Bool
  unfolding first_since
  request_not_modified_since headers last_modified =
      not (last_modified == 0) && first_since headers last_modified

  -- `Request.NotModified`: If-None-Match goes first
  unfoldable pub not_modified : List HeaderField → Bytes → ℕ → Bool
  unfolding request_not_modified_since request_etag_matches
  not_modified headers etag last_modified =
      if has_header headers (codes "If-None-Match")
      then request_etag_matches headers etag
      else request_not_modified_since headers last_modified

module _ (format_time : ℕ → Bytes) where
  -- `SetLastModified`
  unfoldable pub set_last_modified : ResponseWriter → ℕ → ResponseWriter
  set_last_modified w last_modified =
      if last_modified == 0
      then w
      else set_header w (codes "Last-Modified") (format_time last_modified)

  abbrev pub not_modified_from : Option ResponseWriter → ℕ → Option ResponseWriter
  not_modified_from none last_modified = none
  not_modified_from (some w) last_modified =
      some (write_header (set_last_modified w last_modified) (pos 304))

  -- `WriteNotModified`
  unfoldable pub write_not_modified : ResponseWriter → Bytes → ℕ → Option ResponseWriter
  unfolding set_last_modified set_etag
  write_not_modified w etag last_modified =
      not_modified_from (if is_empty etag then some w else set_etag w etag) last_modified
