-- ===== src/Http1/LineReader/Quiet.antt =====
-- `ReadLine` does not panic.
use wbsv.Common.{inl, inr, [], ◌∷◌, ◌++◌, ◌==◌, Bool-cases, Bytes, length}
use wbsv.Http1.Errors.{Calm, Ending, eof, timeout, broken, Error, err}
use wbsv.Http1.LineReader.{
  has_suffix, LineReader, end_error, finish_line, read_line_from, read_line, over_limit, crlf,
}
use wbsv.GoText.{has_suffix}

pub end_error-Calm :
    (A : Type 0) (e : Error) (ending : Ending)
    → Calm {A = A} (err e)
    → Calm {A = A} (err (end_error e ending))
end_error-Calm A e eof h = h
end_error-Calm A e timeout h = tt
end_error-Calm A e broken h = tt

finish_line-Calm : (r : LineReader) (line input : Bytes) → Calm (finish_line r line input)
unfolding finish_line
finish_line-Calm r line input = elim (Bool-cases (has_suffix line crlf)) [
  | inl ends ↦ rw ends tt
  | inr differs ↦ rw differs tt
]

read_line_from-Calm : (r : LineReader) (line input : Bytes) → Calm (read_line_from r line input)
unfolding read_line_from
read_line_from-Calm r line [] = end_error-Calm (Bytes × LineReader) Error.unexpected_eof r.ending tt
read_line_from-Calm r line (b ∷ input) =
    let longer = line ++ b ∷ [] in
    elim (Bool-cases (over_limit r.max_line (length longer))) [
      | inl over ↦ rw over tt
      | inr within ↦ elim (Bool-cases (b == b'\n')) [
        | inl newline ↦ rw (within, newline) (finish_line-Calm r longer input)
        | inr other ↦ rw (within, other) (read_line_from-Calm r longer input)
      ]
    ]

pub read_line-Calm : (r : LineReader) → Calm (read_line r)
unfolding read_line
read_line-Calm r = read_line_from-Calm r [] r.input
