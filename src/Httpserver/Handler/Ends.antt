-- ===== src/Httpserver/Handler/Ends.antt =====
-- The loop of `ServeConn` (internal/httpserver/handler.go) ends.
use wbsv.Common.{
  ℕ, zero, suc, ◌+◌, ◌^◌, ◌≤◌, ◌<◌, ◌≡◌, refl, ap, ◌≢◌, inl, inr, Bool, true, false, ◌&&◌, ◌||◌,
  List, [], ◌∷◌, arith, if◌then◌else◌, Bool-cases, Bytes, length, length-append, length-drop, ℤ,
  ◌-ℤ◌, ◌≤ℤ◌, ltb_ℤ, pos,
}
use wbsv.Http1.Header.{HeaderField}
use wbsv.Http1.Request.{read_request, RequestLimits, Request}
use wbsv.Http1.Request.Valid.{read_request_iff, Framed}
use wbsv.Http1.LineReader.{LineReader}
use wbsv.Http1.Errors.{Calm, Error, Result}
use wbsv.Http1.Header.Fields.{IsFields}
use wbsv.Httpserver.Handler.{
  is_panic, or_default, new_writer, app_request, app_handler, is_zero, write_response, with_close,
  reader_after, response_for_request, limits_of, World, line_limit, Conn, Ended, serve_conn,
  after_write, serve_rounds, Handler,
}
use wbsv.Http1.LineReader.Lines.{IsLine}
use wbsv.Http1.Response.{write_response}
use wbsv.Httpserver.ResponseWriter.{is_zero}
use wbsv.Httpserver.Middleware.Returns.{Returns}
use wbsv.Http1.Body.{max_alloc}
use wbsv.Http1.Request.Quiet.{read_request-Calm}

IsLine-shrinks :
    (r : LineReader) (l : Bytes) (r' : LineReader)
    → IsLine r l r'
    → length r'.input < length r.input
IsLine-shrinks r l r' d =
    omega (arith, ap length d.splits, length-append l (b'\r' ∷ b'\n' ∷ r'.input))

IsFields-shrinks :
    {r : LineReader} {fs : List HeaderField} {t : LineReader}
    → IsFields r fs t
    → length t.input ≤ length r.input
IsFields-shrinks IsFields.here = omega arith
IsFields-shrinks (IsFields.field {r} {s} {t} {line} d form rest) =
    omega (arith, IsLine-shrinks r line s d, IsFields-shrinks rest)

Framed-shrinks :
    (headers : List HeaderField) (max : ℤ) (t : LineReader) (body : Bytes) (r' : LineReader)
    → Framed headers max t body r'
    → length r'.input ≤ length t.input
Framed-shrinks headers max t body r' (Framed.absent a b same) =
    omega (arith, ap (λ (x : LineReader). length x.input) same)
Framed-shrinks headers max t body r' (Framed.fixed n a b c e f g same) =
    omega (arith, ap (λ (x : LineReader). length x.input) same, length-drop n t.input)

-- A request that was read has taken a byte of the input at least.
read_request-shrinks :
    (r : LineReader) (limits : RequestLimits) (q : Request) (r' : LineReader)
    → read_request r limits ≡ Result.ok (q, r')
    → length r'.input < length r.input
read_request-shrinks r limits q r' h =
    let d = (read_request_iff r limits q r').0 h in
    let section = d.section in
    omega (
      arith,
      IsLine-shrinks r d.line d.after_line d.line_read,
      IsFields-shrinks section.fields,
      IsLine-shrinks section.last [] d.after_headers section.ends,
      Framed-shrinks q.headers limits.max_body d.after_headers q.body r' d.framed,
    )

-- A round that stays in the loop has read a request.
pub stays-shrinks :
    (h : Handler) (world : World) (r : LineReader) (limits : RequestLimits) (b : Bool)
    (request : Result (Request × LineReader))
    → read_request r limits ≡ request
    → (response_for_request h world request).closes || b ≡ false
    → length (reader_after r request).input < length r.input
unfolding response_for_request
stays-shrinks h world r limits b (Result.err e) is stays = absurd (apart stays)
  where
    apart : true ≡ false → ⊥
    apart ne = cc
stays-shrinks h world r limits b (Result.ok (q, r')) is stays =
    read_request-shrinks r limits q r' is

-- A property of the ends of the loop, where running out of fuel is none, and of a crash when a request
-- can make the application panic.
module _ (h : Handler) (P : Ended → Type 0)
    (proper : (P Ended.read_deadline_failed × P Ended.write_deadline_failed)
      × (P Ended.write_failed × P Ended.closing))
    (crash : (world : World) (r : LineReader)
      → (response_for_request h world (read_request r (limits_of h))).panicked ≡ true
      → P Ended.crashed) where
  after_write-end :
      (o : Result (Unit {0})) (leaves : Bool) (conn : Conn) (next : Conn × Ended)
      → (leaves ≡ false → P next.1)
      → P (after_write o leaves conn next).1
  unfolding after_write
  after_write-end (Result.err e) leaves conn next k = proper.1.0
  after_write-end (Result.ok _) true conn next k = proper.1.1
  after_write-end (Result.ok _) false conn next k = k refl

  end_of_round :
      (panicked failed leaves : Bool) (o : Result (Unit {0})) (answered behind : Conn)
      (next : Conn × Ended)
      → (panicked ≡ true → P Ended.crashed)
      → (leaves ≡ false → P next.1)
      → P
          (if panicked
            then (answered, Ended.crashed)
            else if failed
            then (answered, Ended.write_deadline_failed)
            else after_write o leaves behind next).1
  end_of_round true failed leaves o answered behind next c k = c refl
  end_of_round false true leaves o answered behind next c k = proper.0.1
  end_of_round false false leaves o answered behind next c k =
      after_write-end o leaves behind next k

  serve_rounds-end :
      (fuel k : ℕ) (conn : Conn)
      → length conn.reader.input < fuel
      → P (serve_rounds h fuel k conn).1
  unfolding serve_rounds
  serve_rounds-end zero k conn lt = absurd (never lt)
    where
      never : length conn.reader.input < 0 → ⊥
      never lt = omega arith
  serve_rounds-end (suc fuel) k conn lt =
      let request = read_request conn.reader (limits_of h) in
      let answer = response_for_request h conn.world request in
      let sent = with_close answer.closes answer.reply in
      let wrote = write_response sent conn.sink in
      let answered = record conn {
        reader = reader_after conn.reader request;
        world = answer.world;
      } in
      let behind = record answered { sink = wrote.sink } in
      let switched = is_zero (sent.status_code -ℤ pos 101) in
      let write_fails = ltb_ℤ (pos 0) h.write_timeout && (conn.deadlines k).1 in
      elim (Bool-cases (ltb_ℤ (pos 0) h.read_timeout && (conn.deadlines k).0)) [
        | inl failed ↦ rw failed proper.0.0
        | inr read_set ↦ rw read_set (
            end_of_round answer.panicked write_fails (answer.closes || switched) wrote.outcome
              answered behind (serve_rounds h fuel (k + 1) behind) (crash conn.world conn.reader)
              (λ stays. serve_rounds-end fuel (k + 1) behind (
                less (
                  stays-shrinks h conn.world conn.reader (limits_of h) switched request refl
                    stays))))
      ]
    where
      less : {n : ℕ} → n < length conn.reader.input → n < fuel
      less shorter = omega (arith, shorter, lt)

  serve_conn-end : (conn : Conn) → P (serve_conn h conn).1
  unfolding serve_conn
  serve_conn-end conn =
      serve_rounds-end (suc (length conn.reader.input)) 0
        (record conn { reader = record (conn.reader) { max_line = line_limit h } }) (omega arith)

-- The loop came to its own end.
abbrev pub IsEnd : Ended → Type 0
IsEnd Ended.out_of_fuel = ⊥
IsEnd _ = Unit

is_panic_of_Calm : (e : Error) → Calm {A = Request × LineReader} (Result.err e) → is_panic e ≡ false
is_panic_of_Calm Error.make_panics calm = absurd calm
is_panic_of_Calm _ calm = refl

-- When the limit on bodies is at most what `make` can ask for, and the application and its middleware
-- return on every request, `ServeConn` does not end by a panic.
pub serve_conn-ne-crashed :
    (h : Handler) (conn : Conn)
    → h.max_body ≤ℤ pos max_alloc
    → Returns (app_handler h)
    → (serve_conn h conn).1 ≢ Ended.crashed
unfolding response_for_request limits_of
serve_conn-ne-crashed h conn small returns =
    serve_conn-end h (λ e. e ≢ Ended.crashed) ((λ e. cc, λ e. cc), (λ e. cc, λ e. cc))
      (λ world r panics. absurd (
        never world (read_request r (limits_of h))
          (read_request-Calm r (limits_of h) (limited h.max_body) (bounded h.max_body small))
          panics))
      conn
  where
    limited : (n : ℤ) → ltb_ℤ (pos 0) (or_default n (pos (2 ^ 20))) ≡ true
    limited n = ground arith

    bounded : (n : ℤ) → n ≤ℤ pos max_alloc → or_default n (pos (2 ^ 20)) ≤ℤ pos max_alloc
    bounded n le = ground (arith, le)

    never :
        (world : World) (request : Result (Request × LineReader))
        → Calm request
        → (response_for_request h world request).panicked ≡ true
        → ⊥
    never world (Result.err e) calm panics = cc (panics, is_panic_of_Calm e calm)
    never world (Result.ok (q, r)) calm panics =
        ground (arith, panics, returns (app_request q) new_writer world)
