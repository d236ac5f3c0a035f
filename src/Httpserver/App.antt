-- ===== src/Httpserver/App.antt =====
-- internal/httpserver/app.go and middleware.go: application handlers, and the middleware around them.
-- A handler is a function of the request, the writer and the state that all requests share. It may
-- panic, which its outcome says; what was written before stays written.
pub mod Calls
use wbsv.Common.{
  ℕ, ◌+◌, Bool, false, Option, none, some, List, [], ◌∷◌, if◌then◌else◌, Bytes, codes, length, ℤ,
  pos,
}
use wbsv.Http1.Request.{Request}
use wbsv.Httpserver.ResponseWriter.{
  write_header, write_bytes, reset, or_200, set_header, is_zero, add_header, ResponseWriter,
}
use wbsv.Httpserver.Router.{get, Params}
use mathlib.Core.List.{map}

-- `Request`; of its context the request id is kept, which is the one value that is put there.
pub record AppRequest : Type 0 where
  pub http : Request
  pub params : Option Params
  pub request_id : Option Bytes

abbrev pub or_nil : Option Bytes → Bytes
or_nil none = []
or_nil (some value) = value

abbrev pub in_params : Option Params → Bytes → Bytes
in_params none name = []
in_params (some params) name = or_nil (get name params)

-- `Request.Param`
unfoldable pub param_of : AppRequest → Bytes → Bytes
param_of request name = in_params request.params name

-- `loggingResponseWriter`, without the writer in it
pub record Recorder : Type 0 where
  pub status_code : ℤ
  pub bytes_written : ℕ

-- A `ResponseWriter` as a handler sees it: the buffered writer, with the logging writers around it, the
-- outermost first.
pub record Writer : Type 0 where
  pub buffer : ResponseWriter
  pub recorders : List Recorder

-- A line of the log.
pub data LogLine : Type 0 where
  handled : Bytes → Bytes → ℤ → ℕ → ℕ → LogLine
  recovered : Bytes → Bytes → LogLine

-- What the requests share: the counter of request ids, the log, and the clock, whose
-- readings are numbered.
pub record World : Type 0 where
  pub counter : ℕ
  pub log : List LogLine
  pub clock : ℕ → ℕ
  pub readings : ℕ

pub record Outcome : Type 0 where
  pub writer : Writer
  pub world : World
  pub panicked : Bool

abbrev pub AppHandler : Type 0
AppHandler = AppRequest → Writer → World → Outcome

abbrev pub Middleware : Type 0
Middleware = AppHandler → AppHandler

abbrev pub returns : Writer → World → Outcome
returns w world = record { writer = w; world = world; panicked = false }

-- A method that the logging writers pass on as it is.
abbrev pub on_buffer : (ResponseWriter → ResponseWriter) → Writer → Writer
on_buffer f w = record w { buffer = f w.buffer }

-- `loggingResponseWriter.WriteHeader`, on one of them
abbrev pub record_status : ℤ → Recorder → Recorder
record_status code r = if is_zero r.status_code then record r { status_code = code } else r

-- `loggingResponseWriter.Write`, on one of them
abbrev pub record_bytes : ℕ → Recorder → Recorder
record_bytes n r = record {
  status_code = or_200 r.status_code;
  bytes_written = r.bytes_written + n;
}

unfoldable pub send_header : Writer → ℤ → Writer
send_header w code = record {
  buffer = write_header w.buffer code;
  recorders = map (record_status code) w.recorders;
}

unfoldable pub send_bytes : Writer → Bytes → Writer
send_bytes w p = record {
  buffer = write_bytes w.buffer p;
  recorders = map (record_bytes (length p)) w.recorders;
}

-- `resetResponse`
unfoldable pub reset_response : Writer → Writer
reset_response w = record {
  buffer = reset w.buffer;
  recorders = map (λ _. record { status_code = pos 0; bytes_written = 0 }) w.recorders;
}

abbrev pub set : Bytes → Bytes → Writer → Writer
set name value = on_buffer (λ b. set_header b name value)

abbrev pub add : Bytes → Bytes → Writer → Writer
add name value = on_buffer (λ b. add_header b name value)

-- The answer in plain text that the middleware gives.
unfoldable pub answer : Writer → ℤ → Bytes → Writer
unfolding send_header send_bytes
answer w code text =
    send_bytes (send_header (set (codes "Content-Type") (codes "text/plain; charset=utf-8") w) code)
      text

-- `defaultAppHandler`
unfoldable pub default_app_handler : AppHandler
unfolding send_bytes
default_app_handler request w world =
    let line = request.http.request_line in
    returns
      (send_bytes
        (set (codes "Content-Type") (codes "text/plain; charset=utf-8") (
          add (codes "X-WBSV-Target") line.request_target
            (add (codes "X-WBSV-Method") line.method w)))
        (codes "hello from _wbsv\n"))
      world

abbrev pub or_default_handler : Option AppHandler → AppHandler
or_default_handler none = default_app_handler
or_default_handler (some handler) = handler

-- the loop of `Chain`, from the last middleware to the first; `none` is a nil one
unfoldable pub wrap : List (Option Middleware) → AppHandler → AppHandler
wrap [] handler = handler
wrap (none ∷ middlewares) handler = wrap middlewares handler
wrap (some middleware ∷ middlewares) handler = middleware (wrap middlewares handler)

-- `Chain`
unfoldable pub chain : Option AppHandler → List (Option Middleware) → AppHandler
unfolding wrap
chain handler middlewares = wrap middlewares (or_default_handler handler)
