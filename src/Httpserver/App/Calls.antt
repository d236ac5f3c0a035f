-- ===== src/Httpserver/App/Calls.antt =====
-- A handler as the calls that it makes on its `ResponseWriter` (internal/httpserver/logging.go and
-- response_writer.go).
use wbsv.Common.{List, [], ◌∷◌, Bytes, ℤ}
use wbsv.Httpserver.App.{set, add, send_bytes, returns, send_header, Writer, AppHandler}

-- The calls that a logging writer passes on as they are, here those on headers, and the two that it
-- records.
pub data WriterCall : Type 0 where
  adds : Bytes → Bytes → WriterCall
  sets : Bytes → Bytes → WriterCall
  sends_header : ℤ → WriterCall
  sends_bytes : Bytes → WriterCall

unfoldable pub call : Writer → WriterCall → Writer
unfolding send_header send_bytes
call w (WriterCall.adds name value) = add name value w
call w (WriterCall.sets name value) = set name value w
call w (WriterCall.sends_header code) = send_header w code
call w (WriterCall.sends_bytes p) = send_bytes w p

unfoldable pub run_calls : List WriterCall → Writer → Writer
unfolding call
run_calls [] w = w
run_calls (c ∷ calls) w = run_calls calls (call w c)

-- The handler that makes these calls, and returns.
abbrev pub calling : List WriterCall → AppHandler
calling calls request w world = returns (run_calls calls w) world
