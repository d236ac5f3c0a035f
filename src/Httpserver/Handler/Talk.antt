-- ===== src/Httpserver/Handler/Talk.antt =====
-- A connection from the first request to the last: what the client of `ServeConn` reads
-- (internal/httpserver/handler.go).
use wbsv.Common.{
  ℕ, zero, suc, ◌+◌, ◌<◌, ◌≡◌, refl, sym, ap, ◌∙◌, ◌⊎◌, inl, inr, Bool, true, false, ◌&&◌, ◌||◌,
  none, List, [], ◌∷◌, ◌++◌, append-nil, append_assoc, arith, if◌then◌else◌, Bool-cases, Bytes,
  length, All, ℤ, ◌-ℤ◌, ◌≤ℤ◌, ltb_ℤ, pos,
}
use wbsv.Http1.Errors.{ok}
use wbsv.Http1.Response.{write_response, Response}
use wbsv.Http1.Response.Encoded.{IsSendable, encode, write_response-encode}
use wbsv.Http1.Response.RoundTrip.{ReadsBack, encode-ReadsBack}
use wbsv.Httpserver.Handler.Ends.{stays-shrinks}
use wbsv.Httpserver.Handler.{
  line_limit, serve_conn, after_write, Ended, serve_rounds, Conn, limits_of, read_request,
  reader_after, response_for_request, World, with_close, is_zero, Answer, Handler,
}
use wbsv.Http1.LineReader.{LineReader}
use wbsv.Httpserver.App.{World}
use wbsv.Httpserver.ResponseWriter.{is_zero}
use wbsv.Http1.Request.{read_request}

-- A response of fixed length that can be sent.
abbrev pub Sendable : Response → Type 0
Sendable q = (status : ℕ) × IsSendable q status

-- What the handler makes of the next request of a reader.
abbrev pub answer_at : Handler → World → LineReader → Answer
answer_at h world r = response_for_request h world (read_request r (limits_of h))

abbrev pub sent_of : Answer → Response
sent_of a = with_close a.closes a.reply

abbrev pub leaves : Answer → Bool
leaves a = a.closes || is_zero ((sent_of a).status_code -ℤ pos 101)

-- The answers to the requests of a reader, from the first to the one that ends the connection; each
-- finds the shared state as the one before has left it.
unfoldable pub Talk : Handler → World → LineReader → List Response → Type 0
Talk h world r [] = ⊥
Talk h world r (q ∷ qs) =
    let a = answer_at h world r in
    let r' = reader_after r (read_request r (limits_of h)) in
    (a.panicked ≡ false)
    × (sent_of a ≡ q)
    × (((leaves a ≡ true) × (qs ≡ [])) ⊎ ((leaves a ≡ false) × Talk h a.world r' qs))

-- A client reads these responses, one behind the other, and nothing else.
pub ReadInOrder : List Response → Bytes → LineReader → Type 0
ReadInOrder [] out r = out ≡ []
ReadInOrder (q ∷ qs) out r =
    (first : Bytes) × (rest : Bytes) × (out ≡ first ++ rest)
    × ReadsBack q first rest r
    × ReadInOrder qs rest r

-- How a connection goes that tells the client these responses.
pub record Told (client : LineReader) (before : Bytes) (qs : List Response) (c : Conn × Ended)
    : Type 0 where
  pub ended : c.1 ≡ Ended.closing
  pub out : Bytes
  pub sent : c.0.sink.sent ≡ before ++ out
  pub reads : ReadInOrder qs out client

no_test :
    (limit : ℤ) (failed : Bool × Bool)
    → failed ≡ (false, false)
    → ((ltb_ℤ (pos 0) limit && failed.0) ≡ false) × ((ltb_ℤ (pos 0) limit && failed.1) ≡ false)
no_test limit failed calm = rw calm (elim (Bool-cases (ltb_ℤ (pos 0) limit)) [
  | inl set ↦ rw set (refl, refl)
  | inr unset ↦ rw unset (refl, refl)
])

module _ (h : Handler) (client : LineReader) (unlimited : client.max_line ≤ℤ pos 0) where
  -- The connection behind a round in which these bytes were sent.
  abbrev behind_round : Conn → Bytes → Conn
  behind_round conn out =
      let a = answer_at h conn.world conn.reader in
      record conn {
        reader = reader_after conn.reader (read_request conn.reader (limits_of h));
        world = a.world;
        sink = record (conn.sink) {
          sent = conn.sink.sent ++ out;
          closed = (sent_of a).body_closer || conn.sink.closed;
        };
      }

  serve_rounds-round :
      (fuel k : ℕ) (conn : Conn) (out : Bytes)
      → conn.deadlines k ≡ (false, false)
      → (answer_at h conn.world conn.reader).panicked ≡ false
      → write_response (sent_of (answer_at h conn.world conn.reader)) conn.sink
        ≡ record { outcome = ok tt; sink = (behind_round conn out).sink }
      → serve_rounds h (suc fuel) k conn ≡ (
          if leaves (answer_at h conn.world conn.reader)
          then (behind_round conn out, Ended.closing)
          else serve_rounds h fuel (k + 1) (behind_round conn out))
  unfolding serve_rounds after_write
  serve_rounds-round fuel k conn out calm returned wrote =
      rw
        (
          (no_test h.read_timeout (conn.deadlines k) calm).0,
          returned,
          (no_test h.write_timeout (conn.deadlines k) calm).1,
          wrote,
        )
        refl

  serve_rounds-Told :
      (fuel k : ℕ) (conn : Conn) (qs : List Response)
      → length conn.reader.input < fuel
      → conn.sink.room ≡ none
      → ((n : ℕ) → conn.deadlines n ≡ (false, false))
      → Talk h conn.world conn.reader qs
      → All Sendable qs
      → Told client conn.sink.sent qs (serve_rounds h fuel k conn)
  unfolding Talk ReadInOrder
  serve_rounds-Told zero k conn qs lt room calm talk sendable = absurd (never lt)
    where
      never : length conn.reader.input < 0 → ⊥
      never lt = omega arith
  serve_rounds-Told (suc fuel) k conn [] lt room calm talk sendable = absurd talk
  serve_rounds-Told (suc fuel) k conn (q ∷ qs) lt room calm (returned, is, next) (d, ds) =
      let wrote : write_response (sent_of (answer_at h conn.world conn.reader)) conn.sink
          ≡ record { outcome = ok tt; sink = (behind_round conn (encode q)).sink } =
        rw is (write_response-encode q d.0 d.1 conn.sink room) in
      rw (serve_rounds-round fuel k conn (encode q) (calm k) returned wrote) (elim next [
        | inl (leaving, last) ↦
            rw (leaving, last)
              (record {
                ended = refl;
                out = encode q ++ [];
                sent = ap (◌++◌ conn.sink.sent) (sym (append-nil (encode q)));
                reads = (encode q, [], refl, encode-ReadsBack q d.0 d.1 client [] unlimited, refl);
              })
        | inr (staying, talk) ↦
            let told =
              serve_rounds-Told fuel (k + 1) (behind_round conn (encode q)) qs
                (less (stays-shrinks h conn.world conn.reader (limits_of h) _ _ refl staying)) room
                calm talk ds in
            rw staying (record {
              ended = told.ended;
              out = encode q ++ told.out;
              sent = told.sent ∙ append_assoc conn.sink.sent (encode q) told.out;
              reads = (
                encode q,
                told.out,
                refl,
                encode-ReadsBack q d.0 d.1 client told.out unlimited,
                told.reads,
              );
            })
      ])
    where
      less : {n : ℕ} → n < length conn.reader.input → n < fuel
      less shorter = omega (arith, shorter, lt)

-- The reader of `ServeConn`, with its limit on lines.
abbrev pub with_limit : Handler → LineReader → LineReader
with_limit h r = record r { max_line = line_limit h }

-- `ServeConn`, on a connection that takes everything and where no deadline fails to be set: when the
-- answers to the requests, the last of which ends the connection, are responses of fixed length that
-- can be sent, the connection is closed at the end, and the client reads these responses, in the order
-- of the requests, and nothing else.
pub serve_conn-Told :
    (h : Handler) (client : LineReader) (conn : Conn) (qs : List Response)
    → client.max_line ≤ℤ pos 0
    → conn.sink.room ≡ none
    → ((n : ℕ) → conn.deadlines n ≡ (false, false))
    → Talk h conn.world (with_limit h conn.reader) qs
    → All Sendable qs
    → Told client conn.sink.sent qs (serve_conn h conn)
unfolding serve_conn
serve_conn-Told h client conn qs unlimited room calm talk sendable =
    serve_rounds-Told h client unlimited (suc (length conn.reader.input)) 0
      (record conn { reader = with_limit h conn.reader }) qs (omega arith) room calm talk sendable
