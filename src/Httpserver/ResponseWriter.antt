-- ===== src/Httpserver/ResponseWriter.antt =====
-- internal/httpserver/response_writer.go: the response that an application builds, before it is sent.
-- The writer is one object that the handler changes call by call; each call is a function of it.
pub mod Fields
use wbsv.Common.{
  Bool, true, false, ◌&&◌, Option, none, some, List, [], ◌∷◌, ◌++◌, if◌then◌else◌, Bytes, ℤ, leb_ℤ,
  pos,
}
use wbsv.Http1.Header.{HeaderField}
use wbsv.Http1.Response.{Stream, Response}
use wbsv.GoText.{equal_fold}

-- `bufferedResponseWriter`
pub record ResponseWriter : Type 0 where
  pub status_code : ℤ
  pub headers : List HeaderField
  pub body : Bytes
  pub body_reader : Option Stream
  pub body_closer : Bool
  pub body_length : ℤ
  pub chunked : Bool

-- `newBufferedResponseWriter`
unfoldable pub new_response_writer : ResponseWriter
new_response_writer = record {
  status_code = pos 0;
  headers = [];
  body = [];
  body_reader = none;
  body_closer = false;
  body_length = pos 0;
  chunked = false;
}

abbrev pub is_zero : ℤ → Bool
is_zero n = leb_ℤ n (pos 0) && leb_ℤ (pos 0) n

unfoldable pub add_header : ResponseWriter → Bytes → Bytes → ResponseWriter
add_header w name value = record w {
  headers = w.headers ++ record { name = name; value = value } ∷ [];
}

-- the loop of `SetHeader`: the first field of this name is changed, or a new one comes last
unfoldable pub set_field : List HeaderField → Bytes → Bytes → List HeaderField
set_field [] name value = record { name = name; value = value } ∷ []
set_field (header ∷ headers) name value =
    let rest = set_field headers name value in
    if equal_fold header.name name
    then record { name = header.name; value = value } ∷ headers
    else header ∷ rest

unfoldable pub set_header : ResponseWriter → Bytes → Bytes → ResponseWriter
unfolding set_field
set_header w name value = record w { headers = set_field w.headers name value }

abbrev pub or_200 : ℤ → ℤ
or_200 code = if is_zero code then pos 200 else code

-- `StreamBody`; `closes` says whether the reader is an `io.Closer`
unfoldable pub stream_body : ResponseWriter → Stream → Bool → ℤ → ResponseWriter
stream_body w reader closes content_length = record w {
  status_code = or_200 w.status_code;
  body = [];
  body_reader = some reader;
  body_closer = closes;
  body_length = content_length;
}

unfoldable pub use_chunked_encoding : ResponseWriter → ResponseWriter
use_chunked_encoding w = record w { chunked = true }

-- `WriteHeader`: the first status stays
unfoldable pub write_header : ResponseWriter → ℤ → ResponseWriter
write_header w code = if is_zero w.status_code then record w { status_code = code } else w

-- `Write`
unfoldable pub write_bytes : ResponseWriter → Bytes → ResponseWriter
write_bytes w p = record w {
  status_code = or_200 w.status_code;
  body_reader = none;
  body_closer = false;
  body_length = pos 0;
  body = w.body ++ p;
}

-- `Response`
unfoldable pub response : ResponseWriter → Response
response w = record {
  version = [];
  status_code = or_200 w.status_code;
  reason_phrase = [];
  headers = w.headers;
  body = w.body;
  body_reader = w.body_reader;
  body_closer = w.body_closer;
  body_length = w.body_length;
  chunked = w.chunked;
}

unfoldable pub reset : ResponseWriter → ResponseWriter
reset w = record {
  status_code = pos 0;
  headers = [];
  body = [];
  body_reader = none;
  body_closer = false;
  body_length = pos 0;
  chunked = false;
}
