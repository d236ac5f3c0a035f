-- ===== src/Http1/Mime.antt =====
-- internal/http1/mime.go and response.go: the content type of a response, and error responses.
use wbsv.Common.{
  Bool, true, false, none, List, [], ◌∷◌, ◌++◌, if◌then◌else◌, Bytes, codes, bytes_eq, ℤ, pos,
}
use wbsv.Http1.Header.{is_empty, HeaderField}
use wbsv.Http1.Response.{status_text, Response}
use wbsv.GoText.{path_extension, lower_byte, has_suffix, equal_fold}
use mathlib.Core.List.{map}

-- the loop of `WithContentType`, with its variable `replaced`
unfoldable pub content_type_fields : Bytes → Bool → List HeaderField → List HeaderField
content_type_fields value replaced [] =
    if replaced then [] else record { name = codes "Content-Type"; value = value } ∷ []
content_type_fields value replaced (header ∷ headers) =
    let behind = content_type_fields value true headers in
    let others = content_type_fields value replaced headers in
    if equal_fold header.name (codes "Content-Type")
    then (if replaced
        then behind
        else record { name = codes "Content-Type"; value = value } ∷ behind)
    else header ∷ others

abbrev pub default_content_type : Bytes
default_content_type = codes "application/octet-stream"

-- `WithContentType`
unfoldable pub with_content_type : Response → Bytes → Response
unfolding content_type_fields
with_content_type response content_type =
    let value = if is_empty content_type then default_content_type else content_type in
    record response { headers = content_type_fields value false response.headers }

-- `ErrorResponse`
unfoldable pub error_response : ℤ → Bytes → Response
unfolding with_content_type
error_response status message =
    let text = if is_empty message then status_text status else message in
    let line = if has_suffix text (b'\n' ∷ []) then text else text ++ b'\n' ∷ [] in
    with_content_type
      (record {
        version = [];
        status_code = status;
        reason_phrase = [];
        headers = [];
        body = line;
        body_reader = none;
        body_closer = false;
        body_length = pos 0;
        chunked = false;
      })
      (codes "text/plain; charset=utf-8")

-- `contentTypesByExtension`
abbrev pub content_types_by_extension : List (Bytes × Bytes)
content_types_by_extension =
    (codes ".css", codes "text/css; charset=utf-8")
    ∷ (codes ".gif", codes "image/gif")
    ∷ (codes ".html", codes "text/html; charset=utf-8")
    ∷ (codes ".jpeg", codes "image/jpeg")
    ∷ (codes ".jpg", codes "image/jpeg")
    ∷ (codes ".js", codes "text/javascript; charset=utf-8")
    ∷ (codes ".json", codes "application/json")
    ∷ (codes ".png", codes "image/png")
    ∷ (codes ".svg", codes "image/svg+xml")
    ∷ (codes ".txt", codes "text/plain; charset=utf-8")
    ∷ (codes ".wasm", codes "application/wasm")
    ∷ (codes ".webp", codes "image/webp")
    ∷ (codes ".xml", codes "application/xml")
    ∷ []

unfoldable pub type_in : List (Bytes × Bytes) → Bytes → Bytes
type_in [] extension = default_content_type
type_in ((known, content_type) ∷ types) extension =
    let rest = type_in types extension in if bytes_eq known extension then content_type else rest

-- `ContentTypeByPath`
unfoldable pub content_type_by_path : Bytes → Bytes
unfolding type_in
content_type_by_path path =
    type_in content_types_by_extension (map lower_byte (path_extension path))

-- `WithContentTypeForPath`
unfoldable pub with_content_type_for_path : Response → Bytes → Response
unfolding with_content_type content_type_by_path
with_content_type_for_path response path = with_content_type response (content_type_by_path path)
