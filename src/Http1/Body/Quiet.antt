-- ===== src/Http1/Body/Quiet.antt =====
-- `ReadFixedBody` does not panic when the limit on bodies is one that `make` can ask for.
use wbsv.Common.{
  ℕ, zero, suc, ◌-◌, ◌≡◌, inl, inr, true, [], ◌∷◌, ◌++◌, arith, ◌==◌, Bool-cases, Bytes, length, ℤ,
  pos_part, ◌≤ℤ◌, ltb_ℤ, pos,
}
use wbsv.Http1.Body.{Error, max_alloc, LineReader, read_some, read_body_from, read_fixed_body}
use wbsv.Http1.LineReader.{LineReader}
use wbsv.Http1.Errors.{Error, Calm->>=, Calm}
use wbsv.Http1.LineReader.Quiet.{end_error-Calm}

read_some-Calm : (r : LineReader) (want : ℕ) (input : Bytes) → Calm (read_some r want input)
unfolding read_some
read_some-Calm r want [] = end_error-Calm (Bytes × LineReader) Error.unexpected_body_eof r.ending tt
read_some-Calm r want (b ∷ input) = tt

read_body_from-Calm :
    (fuel remaining : ℕ) (body : Bytes) (r : LineReader)
    → Calm (read_body_from fuel remaining body r)
unfolding read_body_from
read_body_from-Calm zero remaining body r = tt
read_body_from-Calm (suc fuel) remaining body r = elim (Bool-cases (remaining == 0)) [
  | inl done ↦ rw done tt
  | inr more ↦ rw more (
      Calm->>= (read_some r _ r.input) _ (read_some-Calm r _ r.input)
        (λ read. read_body_from-Calm fuel (remaining - length read.0) (body ++ read.0) read.1))
]

pub read_fixed_body-Calm :
    (r : LineReader) (len max_body : ℤ)
    → (ltb_ℤ (pos 0) max_body ≡ true)
    → max_body ≤ℤ pos max_alloc
    → Calm (read_fixed_body r len max_body)
unfolding read_fixed_body
read_fixed_body-Calm r len max_body limited small =
    ground (arith, limited, small, read_body_from-Calm (suc (pos_part len)) (pos_part len) [] r)
