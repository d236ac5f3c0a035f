-- ===== src/Http1/Sink.antt =====
-- The `io.Writer` that a response is written to, as the library's interface documents it: a write
-- takes all the bytes, or some of them and reports an error, and after that nothing more.
use wbsv.Common.{
  ℕ, ◌-◌, ◌≡◌, ◌∙◌, Bool, true, false, ◌||◌, Option, none, some, [], ◌++◌, append-nil, append_assoc,
  leb, if◌then◌else◌, Bytes, length, take,
}
use wbsv.Http1.Errors.{Error, net_broken, Result, ok, err}

-- The bytes taken so far, how many more are taken before the connection breaks (`none` for no end),
-- and whether the closer of the response's body was called.
pub record Sink : Type 0 where
  pub sent : Bytes
  pub room : Option ℕ
  pub closed : Bool

pub record Wrote : Type 0 where
  pub outcome : Result (Unit {0})
  pub sink : Sink

-- A step that writes, and may fail.
abbrev pub Writing : Type 0
Writing = Sink → Wrote

abbrev pub finish : Writing
finish s = record { outcome = ok tt; sink = s }

abbrev pub fail : Error → Writing
fail e s = record { outcome = err e; sink = s }

abbrev after : Wrote → Writing → Wrote
after w k = elim w.outcome [ ok _ ↦ k w.sink | err e ↦ record { outcome = err e; sink = w.sink } ]

infixl 5 ◌>>◌
abbrev pub ◌>>◌ : Writing → Writing → Writing
◌>>◌ m k s = after (m s) k

abbrev pub fail_when : Bool → Error → Writing
fail_when true e = fail e
fail_when false e = finish

take_some : Bytes → Option ℕ → Writing
take_some p none s = record { outcome = ok tt; sink = record s { sent = s.sent ++ p } }
take_some p (some n) s =
    if leb (length p) n
    then record {
      outcome = ok tt;
      sink = record s { sent = s.sent ++ p; room = some (n - length p) };
    }
    else record {
      outcome = err net_broken;
      sink = record s { sent = s.sent ++ take n p; room = some 0 };
    }

unfoldable pub write : Bytes → Writing
unfolding take_some
write p s = take_some p s.room s

-- The closer that a `defer` has left is called when the rest has ended, well or not.
abbrev pub with_closer : Bool → Writing → Writing
with_closer false m s = m s
with_closer true m s =
    let w = m s in record { outcome = w.outcome; sink = record (w.sink) { closed = true } }

-- `w` was written in full to a sink that takes everything.
abbrev pub Writes : Writing → Bytes → Type 0
Writes m out =
    (s : Sink)
    → s.room ≡ none
    → m s ≡ record { outcome = ok tt; sink = record s { sent = s.sent ++ out } }

pub write-Writes : (p : Bytes) → Writes (write p) p
unfolding write
write-Writes p s h = rw (h, take_some)

pub finish-Writes : Writes finish []
finish-Writes s h = rw append-nil

pub >>-Writes : (m k : Writing) {a b : Bytes} → Writes m a → Writes k b → Writes (m >> k) (a ++ b)
>>-Writes m k {a} {b} hm hk s h =
    rw (hm s h) (hk (record s { sent = s.sent ++ a }) h ∙ rw append_assoc)

pub fail_when-Writes : (b : Bool) (e : Error) → b ≡ false → Writes (fail_when b e) []
fail_when-Writes b e h s r = rw h (finish-Writes s r)

-- A guard that does not hold is passed.
pub fail_when_passes :
    (b : Bool) (e : Error) (k : Writing) (s : Sink) → b ≡ false → (fail_when b e >> k) s ≡ k s
fail_when_passes b e k s h = rw h

pub Writes-eq : (m : Writing) {a b : Bytes} → a ≡ b → Writes m a → Writes m b
Writes-eq m e h = rw (← e) h

-- What was written, with the closer called if there is one.
pub with_closer-Writes :
    (b : Bool) (m : Writing) {out : Bytes} (s : Sink)
    → Writes m out
    → s.room ≡ none
    → with_closer b m s
      ≡ record { outcome = ok tt; sink = record s { sent = s.sent ++ out; closed = b || s.closed } }
with_closer-Writes false m s h r = h s r
with_closer-Writes true m s h r = rw (h s r)
