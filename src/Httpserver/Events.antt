-- ===== src/Httpserver/Events.antt =====
-- internal/httpserver/sse.go: server-sent events.
pub mod Stream
use wbsv.Common.{
  Bool, false, not, Option, none, some, List, [], ◌∷◌, ◌++◌, ◌==◌, if◌then◌else◌, Bytes, codes, ℤ,
  ltb_ℤ, pos,
}
use wbsv.Httpserver.ResponseWriter.{set_header, use_chunked_encoding, write_bytes, ResponseWriter}
use wbsv.Http1.Header.{line_breaks, is_empty}
use wbsv.GoText.{split, format_int, contains_any}

pub record ServerSentEvent : Type 0 where
  pub id : Bytes
  pub event : Bytes
  pub text : Bytes
  pub retry : ℤ

-- `strings.ReplaceAll(data, "\r\n", "\n")`, with whether the byte in front is a CR that is held back
unfoldable pub replace_crlf : Bool → Bytes → Bytes
replace_crlf held [] = if held then b'\r' ∷ [] else []
replace_crlf held (c ∷ s) =
    let rest = replace_crlf (c == b'\r') s in
    if c == b'\n'
    then b'\n' ∷ rest
    else if held
    then b'\r' ∷ (if c == b'\r' then rest else c ∷ rest)
    else if c == b'\r'
    then rest
    else c ∷ rest

-- `strings.ReplaceAll(data, "\r", "\n")`
unfoldable pub replace_cr : Bytes → Bytes
replace_cr [] = []
replace_cr (c ∷ s) = (if c == b'\r' then b'\n' else c) ∷ replace_cr s

-- `normalizeSSEData`
unfoldable pub normalize_sse_data : Bytes → Bytes
unfolding replace_crlf replace_cr
normalize_sse_data text = replace_cr (replace_crlf false text)

abbrev pub invalid_sse_field_value : Bytes → Bool
invalid_sse_field_value value = contains_any value line_breaks

abbrev pub optional : Bool → Bytes → Bytes → List (Bytes × Bytes)
optional there name value = if there then (name, value) ∷ [] else []

abbrev pub data_fields : List Bytes → List (Bytes × Bytes)
data_fields [] = []
data_fields (line ∷ lines) = (codes "data", line) ∷ data_fields lines

-- The fields that are written, in their order.
unfoldable pub event_fields : ServerSentEvent → List (Bytes × Bytes)
unfolding normalize_sse_data
event_fields e =
    optional (not (is_empty e.id)) (codes "id") e.id
    ++ (optional (not (is_empty e.event)) (codes "event") e.event
        ++ (optional (ltb_ℤ (pos 0) e.retry) (codes "retry") (format_int e.retry)
            ++ data_fields (split b'\n' (normalize_sse_data e.text))))

unfoldable pub write_fields : List (Bytes × Bytes) → Bytes
write_fields [] = []
write_fields ((name, value) ∷ fields) = name ++ b':' ∷ b' ' ∷ (value ++ b'\n' ∷ write_fields fields)

-- `encodeServerSentEvent`; `none` is `ErrInvalidSSEEvent`
unfoldable pub encode_server_sent_event : ServerSentEvent → Option Bytes
unfolding write_fields
encode_server_sent_event e =
    if invalid_sse_field_value e.id
    then none
    else if invalid_sse_field_value e.event
    then none
    else if ltb_ℤ e.retry (pos 0)
    then none
    else some (write_fields (event_fields e) ++ b'\n' ∷ [])

abbrev pub write_encoded : ResponseWriter → Option Bytes → Option ResponseWriter
write_encoded w none = none
write_encoded w (some encoded) = some (
    write_bytes
      (use_chunked_encoding (
        set_header (set_header w (codes "Content-Type") (codes "text/event-stream"))
          (codes "Cache-Control") (codes "no-cache")))
      encoded)

-- `WriteEvent`
unfoldable pub write_event : ResponseWriter → ServerSentEvent → Option ResponseWriter
unfolding encode_server_sent_event
write_event w e = write_encoded w (encode_server_sent_event e)
