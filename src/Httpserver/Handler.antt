-- ===== src/Httpserver/Handler.antt =====
-- internal/httpserver/handler.go: the requests of one connection, one after the other.
pub mod Ends
pub mod Talk
use wbsv.Common.{
  ℕ, zero, suc, ◌+◌, ◌^◌, Bool, true, false, not, ◌&&◌, ◌||◌, Option, none, List, [], ◌∷◌, ◌++◌,
  if◌then◌else◌, codes, length, bytes_eq, ℤ, ◌-ℤ◌, ltb_ℤ, pos,
}
use wbsv.Http1.Header.{header_has_token, HeaderField}
use wbsv.Http1.Response.{write_response, Response}
use wbsv.Http1.Request.{http_1_1, read_request, RequestLimits, Request}
use wbsv.Http1.Sink.{Sink}
use wbsv.Httpserver.App.{chain, AppRequest, Writer, World, Outcome, AppHandler, Middleware}
use wbsv.Http1.Errors.{Result, Error}
use wbsv.Http1.LineReader.{LineReader}
use wbsv.Httpserver.ResponseWriter.{is_zero, new_response_writer, response, ResponseWriter}
use wbsv.Http1.Mime.{error_response}

pub record Handler : Type 0 where
  pub read_timeout : ℤ
  pub write_timeout : ℤ
  pub max_line : ℤ
  pub max_headers : ℤ
  pub max_body : ℤ
  pub app : Option AppHandler
  pub middleware : List (Option Middleware)

-- `appHandler`
unfoldable pub app_handler : Handler → AppHandler
app_handler h = chain h.app h.middleware

abbrev pub or_default : ℤ → ℤ → ℤ
or_default limit default = if ltb_ℤ (pos 0) limit then limit else default

-- `maxLine`, `maxHeaders`, `maxBody`
unfoldable pub line_limit : Handler → ℤ
line_limit h = or_default h.max_line (pos 8192)

unfoldable pub limits_of : Handler → RequestLimits
limits_of h = record {
  max_headers = or_default h.max_headers (pos 100);
  max_body = or_default h.max_body (pos (2 ^ 20));
}

unfoldable pub should_close_connection : Request → Bool
should_close_connection request =
    header_has_token request.headers (codes "Connection") (codes "close")
    || not (bytes_eq request.request_line.version http_1_1)

-- the `switch` on the error of `ReadRequest`
unfoldable pub response_for_error : Error → Response
response_for_error Error.net_timeout = error_response (pos 408) (codes "request timeout")
response_for_error Error.body_timeout = error_response (pos 408) (codes "request timeout")
response_for_error Error.body_too_large = error_response (pos 413) (codes "content too large")
response_for_error Error.unsupported_transfer_encoding =
    error_response (pos 501) (codes "transfer encoding is not implemented")
response_for_error _ = error_response (pos 400) (codes "bad request")

-- Whether the program has ended in `ReadRequest`.
abbrev pub is_panic : Error → Bool
is_panic Error.make_panics = true
is_panic _ = false

-- What a request comes to: the response, whether the connection is closed behind it, and the state that
-- the requests share. After a panic there is no response.
pub record Answer : Type 0 where
  pub reply : Response
  pub closes : Bool
  pub world : World
  pub panicked : Bool

abbrev pub new_writer : Writer
new_writer = record { buffer = new_response_writer; recorders = [] }

abbrev pub app_request : Request → AppRequest
app_request request = record { http = request; params = none; request_id = none }

-- the end of `responseForRequest`, for what the application has done
abbrev pub answer_of : Request → Outcome → Answer
answer_of request out = record {
  reply = response out.writer.buffer;
  closes = should_close_connection request;
  world = out.world;
  panicked = out.panicked;
}

unfoldable pub response_for_request : Handler → World → Result (Request × LineReader) → Answer
unfolding response_for_error should_close_connection app_handler
response_for_request h world (Result.err e) = record {
  reply = response_for_error e;
  closes = true;
  world = world;
  panicked = is_panic e;
}
response_for_request h world (Result.ok (request, r)) =
    answer_of request (app_handler h (app_request request) new_writer world)

abbrev pub connection_close : HeaderField
connection_close = record { name = codes "Connection"; value = codes "close" }

abbrev pub with_close : Bool → Response → Response
with_close false response = response
with_close true response = record response { headers = response.headers ++ connection_close ∷ [] }

-- The two sides of the connection, the state that the requests share, and whether the calls that set a
-- deadline in a round fail.
pub record Conn : Type 0 where
  pub reader : LineReader
  pub sink : Sink
  pub world : World
  pub deadlines : ℕ → Bool × Bool

-- How the loop of `ServeConn` ends: `crashed` is a panic, which ends the program, and
-- `out_of_fuel` is no end of the loop.
pub data Ended : Type 0 where
  read_deadline_failed : Ended
  write_deadline_failed : Ended
  write_failed : Ended
  closing : Ended
  crashed : Ended
  out_of_fuel : Ended

-- The reader behind a request that was read.
abbrev pub reader_after : LineReader → Result (Request × LineReader) → LineReader
reader_after r (Result.err e) = r
reader_after r (Result.ok (request, r')) = r'

-- the end of a round: the connection is left, or the loop goes on with the next request
unfoldable pub after_write : Result (Unit {0}) → Bool → Conn → Conn × Ended → Conn × Ended
after_write (Result.err e) leaves conn next = (conn, Ended.write_failed)
after_write (Result.ok _) leaves conn next = if leaves then (conn, Ended.closing) else next

-- the loop of `ServeConn`, on fuel, with the number of the round
unfoldable pub serve_rounds : Handler → ℕ → ℕ → Conn → Conn × Ended
unfolding limits_of response_for_request after_write
serve_rounds h zero k conn = (conn, Ended.out_of_fuel)
serve_rounds h (suc fuel) k conn =
    let request = read_request conn.reader (limits_of h) in
    let answer = response_for_request h conn.world request in
    let sent = with_close answer.closes answer.reply in
    let wrote = write_response sent conn.sink in
    let answered = record conn {
      reader = reader_after conn.reader request;
      world = answer.world;
    } in
    let behind = record answered { sink = wrote.sink } in
    let next = serve_rounds h fuel (k + 1) behind in
    if ltb_ℤ (pos 0) h.read_timeout && (conn.deadlines k).0
    then (conn, Ended.read_deadline_failed)
    else if answer.panicked
    then (answered, Ended.crashed)
    else if ltb_ℤ (pos 0) h.write_timeout && (conn.deadlines k).1
    then (answered, Ended.write_deadline_failed)
    else after_write wrote.outcome (answer.closes || is_zero (sent.status_code -ℤ pos 101)) behind
        next

-- `ServeConn`; a round that does not leave takes a byte of the input at least, so that the fuel never
-- runs out.
unfoldable pub serve_conn : Handler → Conn → Conn × Ended
unfolding serve_rounds line_limit
serve_conn h conn =
    serve_rounds h (suc (length conn.reader.input)) 0
      (record conn { reader = record (conn.reader) { max_line = line_limit h } })
