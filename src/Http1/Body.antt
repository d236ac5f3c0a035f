-- ===== src/Http1/Body.antt =====
-- internal/http1/body.go: a body of fixed length.
-- `Read` of the reader below is the library's: it delivers one byte at least and no more than it is
-- asked for, as many as have arrived, or an error once the input is at its end.
pub mod Exact
pub mod Quiet
use wbsv.Common.{
  ℕ, zero, suc, ◌-◌, ◌^◌, min, ◌&&◌, [], ◌∷◌, ◌++◌, ltb, ◌==◌, if◌then◌else◌, Bytes, length, take,
  drop, ℤ, pos_part, ltb_ℤ, pos,
}
use wbsv.GoText.{max_int64}
use wbsv.Http1.Errors.{
  Error, invalid_content_length, body_too_large, unexpected_body_eof, make_panics, Result, ok, err,
  ◌>>=◌, ◌>>◌, fail_if,
}
use wbsv.Http1.Header.{eq_ℤ}
use wbsv.Http1.LineReader.{LineReader, end_error}

abbrev pub body_read_chunk_size : ℕ
body_read_chunk_size = 4096

-- `r.reader.Read(buf[:want])`; the error is as `ReadFixedBody` returns it
read_some : LineReader → ℕ → Bytes → Result (Bytes × LineReader)
read_some r want [] = err (end_error unexpected_body_eof r.ending)
read_some r want (b ∷ input) =
    let n = min (min want (suc (r.arrives (b ∷ input)))) (length (b ∷ input)) in
    ok (take n (b ∷ input), record r { input = drop n (b ∷ input) })

-- the loop of `ReadFixedBody`, on fuel, with the bytes that remain to be read and the body so far
read_body_from : ℕ → ℕ → Bytes → LineReader → Result (Bytes × LineReader)
unfolding read_some
read_body_from zero remaining body r = err unexpected_body_eof
read_body_from (suc fuel) remaining body r =
    let read_size =
      if ltb remaining body_read_chunk_size then remaining else body_read_chunk_size in
    let rest = (do
      (chunk, r') ← read_some r read_size r.input
      read_body_from fuel (remaining - length chunk) (body ++ chunk) r') in
    if remaining == 0 then ok (body, r) else rest

-- `int64(int(^uint(0) >> 1))`, where an int has 64 bits
abbrev pub max_int : ℤ
max_int = pos max_int64

-- The most bytes that Go's `make` is ready to ask for, where addresses have 48 bits; more is a panic.
abbrev pub max_alloc : ℕ
max_alloc = 2 ^ 48

-- Every read delivers a byte at least, so the fuel never runs out.
unfoldable pub read_fixed_body : LineReader → ℤ → ℤ → Result (Bytes × LineReader)
unfolding read_body_from
read_fixed_body r len max_body = do
  let read_nonempty =
      fail_if (ltb_ℤ max_int len) body_too_large
      >> fail_if (ltb_ℤ (pos max_alloc) len) make_panics
      >> read_body_from (suc (pos_part len)) (pos_part len) [] r
  fail_if (ltb_ℤ len (pos 0)) invalid_content_length
  fail_if (ltb_ℤ (pos 0) max_body && ltb_ℤ max_body len) body_too_large
  (if eq_ℤ len (pos 0) then ok ([], r) else read_nonempty)
