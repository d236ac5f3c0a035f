-- ===== src/Httpserver/Middleware/RequestId.antt =====
-- internal/httpserver/request_id.go: an id for each request.
pub mod Fresh
use wbsv.Common.{
  ◌+◌, ◌%◌, ◌^◌, Option, none, some, List, [], ◌∷◌, ◌++◌, if◌then◌else◌, Bytes, codes,
}
use wbsv.Http1.Header.{is_empty, HeaderField}
use wbsv.Httpserver.App.{set, AppRequest, World, Outcome, Middleware}
use wbsv.GoText.{trim_space, equal_fold, format_nat}

abbrev pub request_id_header : Bytes
request_id_header = codes "X-Request-ID"

-- `requestIDFromHeaders`
unfoldable pub request_id_from_headers : List HeaderField → Bytes
request_id_from_headers [] = []
request_id_from_headers (header ∷ headers) =
    let rest = request_id_from_headers headers in
    if equal_fold header.name request_id_header then trim_space header.value else rest

-- `nextRequestID`; the counter is a uint64
unfoldable pub next_request_id : World → Bytes × World
next_request_id world =
    let id = (world.counter + 1) % 2 ^ 64 in
    (codes "wbsv-" ++ format_nat id, record world { counter = id })

abbrev pub request_id_of : List HeaderField → World → Bytes × World
request_id_of headers world =
    if is_empty (request_id_from_headers headers)
    then next_request_id world
    else (request_id_from_headers headers, world)

-- `RequestIDFromContext`; an empty id is none
unfoldable pub request_id_from_context : AppRequest → Option Bytes
request_id_from_context request = elim request.request_id [
  | none ↦ none
  | some id ↦ if is_empty id then none else some id
]

-- what the middleware does once the handler has returned
abbrev pub with_id : Bytes → Outcome → Outcome
with_id id out =
    if out.panicked then out else record out { writer = set request_id_header id out.writer }

-- `RequestIDMiddleware`
unfoldable pub request_id_middleware : Middleware
unfolding next_request_id request_id_from_headers
request_id_middleware next request w world =
    let (id, world') = request_id_of request.http.headers world in
    with_id id (next (record request { request_id = some id }) w world')
