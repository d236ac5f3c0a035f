-- ===== src/Lib.antt =====
-- A model of _wbsv, a small HTTP/1.x server in Go, and what holds of it.
--
-- The program has three layers. internal/tcpserver accepts connections, counts them, and shuts down.
-- internal/http1 reads one request from a connection and writes one response. internal/httpserver
-- gives applications a router, a response writer and middleware over these two.
--
-- Common holds what all parts share: Boolean tests on the native numbers, lists and byte strings,
-- signed integers. A Go string is the list of its bytes. GoText is what the code uses of `strings`,
-- `bytes` and `strconv`: Cut, Split, Trim, HasPrefix, EqualFold, ParseInt, FormatInt, each with its laws.
--
-- Http1 models internal/http1. Http1/LineReader is line_reader.go: a reader is the bytes still to
-- come and how they end. Http1/Header is header.go, Http1/Body is body.go, Http1/Request is
-- request_line.go and request.go, Http1/Response is response.go, Http1/Mime is mime.go and
-- `ErrorResponse`. Http1/Errors has the sentinel errors and the result type of all fallible functions;
-- Http1/Sink is the writer of a response, which may break after any number of bytes. Functions keep
-- their Go names in small letters: `ReadHeaderFields` is `read_header_fields`.
--
-- Httpserver models internal/httpserver. Httpserver/Router is router.go: paths, segments, the tree of
-- routes with `insert` and `matchSegments`; Httpserver/Router/Dispatch has `HandleMethod` and the
-- choice of a handler, which Httpserver/Routing makes the handler `ServeHTTP`. Httpserver/Range and
-- Httpserver/RangeResponse are range.go, Httpserver/RateLimit is the limiter of rate_limit.go,
-- Httpserver/ResponseWriter is response_writer.go, with `SendFile` in Httpserver/Files, Httpserver/Headers
-- are the helpers of cors.go and compression.go on header lists, Httpserver/Cookie is cookie.go,
-- Httpserver/Cache is cache.go, Httpserver/Events is sse.go, Httpserver/WebSocket is websocket.go;
-- Httpserver/HeaderSafety takes the calls together that set headers of a response.
-- Httpserver/App is app.go and middleware.go: a handler is a function of the request, the writer and
-- the state that all requests share (`World`: the counter of request ids, the log, the clock), and says
-- whether it panicked; a writer is the buffered one with the logging writers around it.
-- Httpserver/Middleware has a file for each of request_id.go, logging.go, recovery.go, auth.go,
-- rate_limit.go, cors.go and compression.go. The rate limit makes a new limiter each time that it is put
-- around a handler; `limited` is the handler that it makes. Httpserver/Handler is handler.go: the loop of
-- `ServeConn` over `read_request`, the application, which `appHandler` puts behind its middleware anew
-- for each request, and `write_response`.
--
-- Command is cmd/wbsv/main.go: the middleware that the flags turn on, in its order, the handler and the
-- server. Loadtest is internal/loadtest/loadtest.go: the summary of the results, in the order of their
-- arrival; Loadtest/Flags is cmd/wbsvload/main.go.
--
-- Tcpserver models internal/tcpserver/server.go. Each critical section of the mutex and each call on the
-- wait group is a function on the server's state; Tcpserver/Steps puts them together as the steps of
-- the goroutines of `Serve`, in any order. Tcpserver/Echo is the loop of `handleConn`.
--
-- Loops run on lists (`read_line_from` on the input itself), or on fuel: `read_header_fields` has fuel
-- for each byte of the input, of which every line takes two at least; `read_fixed_body` for each byte of
-- the length, of which every `Read` delivers one at least; `decimal` for more digits than a number has;
-- `serve_conn` for each byte of the input, of which every request takes one at least. An int has 64
-- bits, and a limit of zero or less means none, as in the code; the connection handler puts its
-- defaults in place of such limits. The sum in `retryAfterSeconds` wraps around as an int64 does.
-- `ReadFixedBody` asks `make` for the announced length: more than 2 ^ 48 bytes, the most on a machine
-- with addresses of 48 bits, is a panic (`make_panics`), which ends the program; below that, memory is
-- taken to be enough.
--
-- Taken as the library documents it: `Read` delivers a byte at least or an error; a writer that failed
-- takes nothing more; `Accept` returns connections that are new; a time is the number of nanoseconds
-- since the zero time, and the clock does not go back between the start of a request and its log line.
-- `EqualFold` is exact when one of the two texts is ASCII, `ToUpper` and `ToLower` on ASCII text,
-- `TrimSpace` where no white space outside ASCII stands at an end. The texts that wrapped errors add for
-- people are left out. Parameters stand for gzip, SHA-1, base64, the format of dates and of durations,
-- the spelling of header names in `http.Header`, the file system and the system's table of file types.
--
-- The model runs one connection on the shared state: its requests come one after the other, and what
-- other connections would do to the counter and the log in between, which the code guards by an atomic
-- counter and a mutex, is left out. A load test whose context is cancelled is left out; its
-- sums are taken to fit their integers, and the latencies not to be negative.
--
-- Not modelled: the client side of the load test, with its workers and channels; parsing of flags,
-- signals; timers, deadlines, sockets, files and the goroutine scheduler, which are the runtime's.
mod Common
pub mod GoText
pub mod Http1
pub mod Httpserver
pub mod Tcpserver
pub mod Command
pub mod Loadtest
