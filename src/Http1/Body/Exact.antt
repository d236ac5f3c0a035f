-- ===== src/Http1/Body/Exact.antt =====
-- `ReadFixedBody` reads exactly the bytes that it is asked for, however they arrive.
use native.Mathlib.Decide.{dec_lt}
use wbsv.Common.{
  ℕ, zero, suc, ◌+◌, ◌-◌, ◌≤◌, ◌<◌, min, ◌≡◌, refl, sym, ap, ap₂, ◌∙◌, false, [], ◌∷◌, ◌++◌,
  append-nil, append_assoc, arith, ltb, ◌==◌, if◌then◌else◌, Bytes, length, take, drop, length-drop,
  length-take, take-add, drop-add, ℤ, pos, negsuc,
}
use wbsv.GoText.{max_int64}
use wbsv.Http1.Errors.{
  invalid_content_length, body_too_large, unexpected_body_eof, make_panics, Result, ok, err,
}
use wbsv.Http1.LineReader.{LineReader, end_error, over_limit}
use wbsv.Http1.Body.{max_alloc, body_read_chunk_size, read_some, read_body_from, read_fixed_body}

-- The reader behind the next `n` bytes.
abbrev pub skip : ℕ → LineReader → LineReader
skip n r = record r { input = drop n r.input }

-- How much one `Read` delivers.
abbrev chunk : LineReader → ℕ → ℕ
chunk r want = min (min want (suc (r.arrives r.input))) (length r.input)

read_some-cons :
    (r : LineReader) (want : ℕ) (s : Bytes)
    → 0 < length s
    → read_some (record r { input = s }) want s
      ≡ ok (
        take (chunk (record r { input = s }) want) s,
        skip (chunk (record r { input = s }) want) (record r { input = s }),
      )
unfolding read_some
read_some-cons r want [] h = elim h [ ]
read_some-cons r want (b ∷ s) h = refl

read_some-nil :
    (r : LineReader) (want : ℕ) (s : Bytes)
    → length s ≡ 0
    → read_some (record r { input = s }) want s ≡ err (end_error unexpected_body_eof r.ending)
unfolding read_some
read_some-nil r want [] h = refl
read_some-nil r want (b ∷ s) h = absurd (omega arith)

abbrev size : ℕ → ℕ
size remaining = if ltb remaining body_read_chunk_size then remaining else body_read_chunk_size

read_body_from-suc :
    (fuel remaining : ℕ) (body : Bytes) (r : LineReader)
    → 0 < remaining
    → 0 < length r.input
    → read_body_from (suc fuel) remaining body r
      ≡ read_body_from fuel
          (remaining - chunk r (size remaining))
          (body ++ take (chunk r (size remaining)) r.input)
          (skip (chunk r (size remaining)) r)
unfolding read_body_from
read_body_from-suc fuel remaining body r h k = rw (
  more remaining h,
  read_some-cons r (size remaining) r.input k,
  length-take (chunk r (size remaining)) r.input,
  whole (min (size remaining) (suc (r.arrives r.input))) (length r.input),
)
  where
    more : (n : ℕ) → 0 < n → (n == 0) ≡ false
    more n h = ground arith

    whole : (n m : ℕ) → min (min n m) m ≡ min n m
    whole n m = omega arith

read_body_from_done :
    (fuel : ℕ) (body : Bytes) (r : LineReader) → read_body_from (suc fuel) 0 body r ≡ ok (body, r)
unfolding read_body_from
read_body_from_done fuel body r = refl

size-le : (n : ℕ) → size n ≤ n
size-le n = ground arith

size_pos : (n : ℕ) → 0 < n → 0 < size n
size_pos n h = ground arith

-- One read brings the loop nearer to its end, and does not pass it.
chunk_bounds :
    (r : LineReader) (n : ℕ)
    → 0 < n
    → 0 < length r.input
    → (0 < chunk r (size n)) × (chunk r (size n) ≤ n) × (chunk r (size n) ≤ length r.input)
chunk_bounds r n h k = omega (arith, size-le n, size_pos n h)

read_body_from-take :
    (fuel remaining : ℕ) (body : Bytes) (r : LineReader)
    → remaining < fuel
    → remaining ≤ length r.input
    → read_body_from fuel remaining body r ≡ ok (body ++ take remaining r.input, skip remaining r)
read_body_from-take zero remaining body r h k = elim h [ ]
read_body_from-take (suc fuel) zero body r h k = read_body_from_done fuel body r ∙ rw append-nil
read_body_from-take (suc fuel) (suc m) body r h k =
    let n = chunk r (size (suc m)) in
    let (pos_n, le_n, in_n) = chunk_bounds r (suc m) (omega arith) (omega arith) in
    let whole : n + (suc m - n) ≡ suc m = omega arith in
    read_body_from-suc fuel (suc m) body r (omega arith) (omega arith)
    ∙ read_body_from-take fuel (suc m - n) (body ++ take n r.input) (skip n r) (omega arith)
        (omega (arith, length-drop n r.input))
    ∙ ap₂ (λ b i. ok (b, record r { input = i }))
        (append_assoc body (take n r.input) (take (suc m - n) (drop n r.input))
          ∙ ap (λ t. body ++ t)
              (sym (take-add n (suc m - n) r.input) ∙ ap (λ t. take t r.input) whole))
        (sym (drop-add n (suc m - n) r.input) ∙ ap (λ t. drop t r.input) whole)

read_body_from-nil :
    (fuel remaining : ℕ) (body : Bytes) (r : LineReader)
    → 0 < remaining
    → length r.input ≡ 0
    → read_body_from (suc fuel) remaining body r ≡ err (end_error unexpected_body_eof r.ending)
unfolding read_body_from
read_body_from-nil fuel remaining body r h k =
    rw (more remaining h, read_some-nil r (size remaining) r.input k)
  where
    more : (n : ℕ) → 0 < n → (n == 0) ≡ false
    more n h = ground arith

read_body_from-short :
    (fuel remaining : ℕ) (body : Bytes) (r : LineReader)
    → remaining < fuel
    → length r.input < remaining
    → read_body_from fuel remaining body r ≡ err (end_error unexpected_body_eof r.ending)
read_body_from-short zero remaining body r h k = elim h [ ]
read_body_from-short (suc fuel) remaining body r h k = elim (dec_lt 0 (length r.input)) [
  | no none_left ↦ read_body_from-nil fuel remaining body r (omega arith) (omega arith)
  | yes left ↦
      let n = chunk r (size remaining) in
      let (pos_n, le_n, in_n) = chunk_bounds r remaining (omega arith) left in
      read_body_from-suc fuel remaining body r (omega arith) left
      ∙ read_body_from-short fuel (remaining - n) (body ++ take n r.input) (skip n r) (omega arith)
          (omega (arith, length-drop n r.input))
]

-- What `ReadFixedBody` comes to, with no loop: the limit is checked first, then `make` panics or does
-- not, and then the input holds enough bytes or it does not.
abbrev pub body_result : LineReader → ℕ → ℤ → Result (Bytes × LineReader)
body_result r n max_body =
    if over_limit max_body n
    then err body_too_large
    else if ltb max_alloc n
    then err make_panics
    else if ltb (length r.input) n
    then err (end_error unexpected_body_eof r.ending)
    else ok (take n r.input, skip n r)

nonzero_body :
    (r : LineReader) (n : ℕ)
    → read_body_from (suc n) n [] r ≡ (
        if ltb (length r.input) n
        then err (end_error unexpected_body_eof r.ending)
        else ok (take n r.input, skip n r))
nonzero_body r n =
    ground (arith, read_body_from-take (suc n) n [] r, read_body_from-short (suc n) n [] r)

-- For every length that an int64 holds and every way in which the bytes arrive, `ReadFixedBody`
-- returns `body_result`: the next `n` bytes of the input and the reader behind them, or an error if
-- the limit is exceeded or the input ends before. A length that is within the limit but more than `make`
-- can ask for is a panic. A negative length is refused.
pub read_fixed_body_lem :
    (r : LineReader) (n : ℕ) (max_body : ℤ)
    → n ≤ max_int64
    → (read_fixed_body r (pos n) max_body ≡ body_result r n max_body)
      × (read_fixed_body r (negsuc n) max_body ≡ err invalid_content_length)
unfolding read_fixed_body
read_fixed_body_lem r zero max_body h = (ground arith, ground arith)
read_fixed_body_lem r (suc m) max_body h = (ground (arith, nonzero_body r (suc m)), ground arith)
