-- ===== src/Http1/LineReader.antt =====
-- internal/http1/line_reader.go: CRLF-terminated lines from a byte stream.
-- The state of a reader is the bytes that are still to come, how the transport ends behind them,
-- and how many of them one `Read` delivers. `bufio.Reader` is the library's.
pub mod Lines
pub mod Quiet
use wbsv.Common.{
  ℕ, ◌-◌, Bool, not, ◌&&◌, [], ◌∷◌, ◌++◌, ◌==◌, if◌then◌else◌, Bytes, length, take, ℤ, ltb_ℤ, pos,
}
use wbsv.GoText.{has_suffix}
use wbsv.Http1.Errors.{
  Ending, eof, timeout, broken, Error, line_too_long, line_ending, unexpected_eof, net_timeout,
  net_broken, Result, ok, err,
}

pub record LineReader : Type 0 where
  pub input : Bytes
  pub ending : Ending
  pub max_line : ℤ
  -- how many bytes a `Read` in front of this input would find behind the first one
  pub arrives : Bytes → ℕ

-- `errors.Is(err, io.EOF)`, and the error that is returned otherwise
abbrev pub end_error : Error → Ending → Error
end_error at_eof eof = at_eof
end_error at_eof timeout = net_timeout
end_error at_eof broken = net_broken

abbrev pub crlf : Bytes
crlf = b'\r' ∷ b'\n' ∷ []

-- `max > 0 && n > max`, the form of the limits on lines and bodies
abbrev pub over_limit : ℤ → ℕ → Bool
over_limit max n = ltb_ℤ (pos 0) max && ltb_ℤ max (pos n)

-- at a newline: the line without its CRLF
finish_line : LineReader → Bytes → Bytes → Result (Bytes × LineReader)
unfolding has_suffix
finish_line r line input =
    if not (has_suffix line crlf)
    then err line_ending
    else ok (take (length line - length crlf) line, record r { input = input })

-- the loop of `ReadLine`, with the bytes read so far
pub read_line_from : LineReader → Bytes → Bytes → Result (Bytes × LineReader)
unfolding finish_line
read_line_from r line [] = err (end_error unexpected_eof r.ending)
read_line_from r line (b ∷ input) =
    let longer = line ++ b ∷ [] in
    let rest = read_line_from r longer input in
    if over_limit r.max_line (length longer)
    then err line_too_long
    else if b == b'\n'
    then finish_line r longer input
    else rest

unfoldable pub read_line : LineReader → Result (Bytes × LineReader)
unfolding read_line_from
read_line r = read_line_from r [] r.input
