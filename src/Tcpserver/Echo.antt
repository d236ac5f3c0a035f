-- ===== src/Tcpserver/Echo.antt =====
-- internal/tcpserver/server.go, `handleConn` without a handler: the echo of what a connection sends.
use wbsv.Common.{
  ℕ, ◌≡◌, refl, Bool, true, false, not, ◌&&◌, Option, none, some, List, [], ◌∷◌, ◌++◌, append_assoc,
  arith, ◌==◌, if◌then◌else◌, Bytes, length, take, All, ℤ, ltb_ℤ, pos,
}

-- One round of the loop, as the connection answers it: the errors of the two calls that set a
-- deadline (made only when a timeout is configured), the bytes that `Read` returns and whether it
-- fails, and how a `Write` of these bytes fails: after some of them.
pub record Round : Type 0 where
  pub read_deadline_fails : Bool
  pub bytes : Bytes
  pub read_fails : Bool
  pub write_deadline_fails : Bool
  pub write_breaks_at : Option ℕ

pub record Timeouts : Type 0 where
  pub read_timeout : ℤ
  pub write_timeout : ℤ

-- What a `Write` puts on the connection.
abbrev pub sent_by : Option ℕ → Bytes → Bytes
sent_by none bytes = bytes
sent_by (some n) bytes = take n bytes

abbrev pub breaks : Option ℕ → Bool
breaks none = false
breaks (some n) = true

-- the block `if n > 0`: what is written, and whether the loop goes on
unfoldable pub echo_bytes : Timeouts → Round → Bytes × Bool
echo_bytes timeouts round =
    if length round.bytes == 0
    then ([], true)
    else if ltb_ℤ (pos 0) timeouts.write_timeout && round.write_deadline_fails
    then ([], false)
    else (sent_by round.write_breaks_at round.bytes, not (breaks round.write_breaks_at))

-- one round
unfoldable pub echo_round : Timeouts → Round → Bytes × Bool
unfolding echo_bytes
echo_round timeouts round =
    if ltb_ℤ (pos 0) timeouts.read_timeout && round.read_deadline_fails
    then ([], false)
    else ((echo_bytes timeouts round).0, (echo_bytes timeouts round).1 && not round.read_fails)

-- `handleConn`: the bytes that are written, and whether the connection was closed in these rounds
unfoldable pub handle_conn : Timeouts → List Round → Bytes × Bool
unfolding echo_round
handle_conn timeouts [] = ([], false)
handle_conn timeouts (round ∷ rounds) =
    let rest = handle_conn timeouts rounds in
    let (sent, goes_on) = echo_round timeouts round in
    if goes_on then (sent ++ rest.0, rest.1) else (sent, true)

-- Nothing fails in the round but, it may be, `Read`.
pub record IsSmooth (round : Round) : Type 0 where
  pub read_deadline : round.read_deadline_fails ≡ false
  pub write_deadline : round.write_deadline_fails ≡ false
  pub write : round.write_breaks_at ≡ none

-- All that was received, in order.
abbrev pub received : List Round → Bytes
received [] = []
received (round ∷ rounds) = round.bytes ++ received rounds

echo_bytes_smooth :
    (timeouts : Timeouts) (round : Round)
    → IsSmooth round
    → echo_bytes timeouts round ≡ (round.bytes, true)
unfolding echo_bytes
echo_bytes_smooth timeouts round s =
    rw (s.write_deadline, s.write) (by_length round.bytes (ltb_ℤ (pos 0) timeouts.write_timeout))
  where
    by_length :
        (bytes : Bytes) (limited : Bool)
        → ◌≡◌ {A = Bytes × Bool}
            (if length bytes == 0
              then ([], true)
              else if limited && false
              then ([], false)
              else (bytes, true))
            (bytes, true)
    by_length [] limited = ground arith
    by_length (b ∷ bytes) limited = ground arith

echo_round_smooth :
    (timeouts : Timeouts) (round : Round)
    → IsSmooth round
    → echo_round timeouts round ≡ (round.bytes, not round.read_fails)
unfolding echo_round
echo_round_smooth timeouts round s =
    rw (s.read_deadline, echo_bytes_smooth timeouts round s) (ground arith)

-- When nothing else fails, all that is received is written back in order, up to and including the
-- bytes that come with the first error of `Read`, and then the connection is closed; what the other
-- side would send after that is not looked at.
pub handle_conn_echo :
    (timeouts : Timeouts) (before after : List Round) (last : Round)
    → All (λ round. IsSmooth round × (round.read_fails ≡ false)) before
    → IsSmooth last
    → last.read_fails ≡ true
    → handle_conn timeouts (before ++ last ∷ after) ≡ (received before ++ last.bytes, true)
unfolding handle_conn
handle_conn_echo timeouts [] after last h s e = rw (echo_round_smooth timeouts last s, e) refl
handle_conn_echo timeouts (round ∷ before) after last ((r, f), h) s e =
    rw
      (
        echo_round_smooth timeouts round r,
        f,
        handle_conn_echo timeouts before after last h s e,
        append_assoc round.bytes (received before) last.bytes,
      )
      refl
