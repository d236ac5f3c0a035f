-- ===== src/Httpserver/Range.antt =====
-- internal/httpserver/range.go: the byte range that a request asks for.
pub mod Bounds
use wbsv.Common.{
  Bool, not, ◌&&◌, ◌||◌, Option, none, some, List, [], ◌∷◌, ◌==◌, if◌then◌else◌, Bytes, codes,
  length, drop, any, ℤ, ◌+ℤ◌, ◌-ℤ◌, ltb_ℤ, leb_ℤ, pos,
}
use wbsv.GoText.{contains_any, has_prefix, cut, trim, parse_int}
use wbsv.Http1.Header.{HeaderField, blanks, is_empty}
use wbsv.Httpserver.Headers.{header_value_fold}

-- All fields are int64.
pub record ByteRange : Type 0 where
  pub start : ℤ
  pub last : ℤ
  pub len : ℤ

-- The three results of `requestByteRange`: no range was asked for, a range, or `ErrInvalidRange`.
pub data RangeResult : Type 0 where
  absent : RangeResult
  found : ByteRange → RangeResult
  invalid : RangeResult

unfoldable pub byte_range : ℤ → ℤ → ByteRange
byte_range start last = record { start = start; last = last; len = last -ℤ start +ℤ pos 1 }

-- the end of `parseRangeNumber`; `none` is an error
non_negative : Option ℤ → Option ℤ
non_negative none = none
non_negative (some n) = if ltb_ℤ n (pos 0) then none else some n

unfoldable pub parse_range_number : Bytes → Option ℤ
unfolding non_negative
parse_range_number value =
    if is_empty value
      || contains_any value (b' ' ∷ b'\t' ∷ b'+' ∷ [])
      || has_prefix value (b'-' ∷ [])
    then none
    else non_negative (parse_int value)

closed_of : Option ℤ → Option ℤ → ℤ → RangeResult
unfolding byte_range
closed_of none last size = invalid
closed_of (some start) none size = invalid
closed_of (some start) (some last) size =
    if ltb_ℤ last start || leb_ℤ size start
    then invalid
    else found (byte_range start (if leb_ℤ size last then size -ℤ pos 1 else last))

unfoldable pub closed_byte_range : Bytes → Bytes → ℤ → RangeResult
unfolding closed_of
closed_byte_range start_text end_text size =
    closed_of (parse_range_number start_text) (parse_range_number end_text) size

open_of : Option ℤ → ℤ → RangeResult
unfolding byte_range
open_of none size = invalid
open_of (some start) size =
    if leb_ℤ size start then invalid else found (byte_range start (size -ℤ pos 1))

unfoldable pub open_ended_byte_range : Bytes → ℤ → RangeResult
unfolding open_of
open_ended_byte_range start_text size = open_of (parse_range_number start_text) size

abbrev at_most : ℤ → ℤ → ℤ
at_most size len = if ltb_ℤ size len then size else len

suffix_of : Option ℤ → ℤ → RangeResult
unfolding byte_range
suffix_of none size = invalid
suffix_of (some len) size =
    if leb_ℤ len (pos 0) && leb_ℤ (pos 0) len
    then invalid
    else found (byte_range (size -ℤ at_most size len) (size -ℤ pos 1))

unfoldable pub suffix_byte_range : Bytes → ℤ → RangeResult
unfolding suffix_of
suffix_byte_range length_text size = suffix_of (parse_range_number length_text) size

-- the `switch` behind the second `strings.Cut`
cut_range : Option (Bytes × Bytes) → ℤ → RangeResult
unfolding closed_byte_range open_ended_byte_range suffix_byte_range
cut_range none size = invalid
cut_range (some (start_text, end_text)) size =
    if is_empty start_text
    then suffix_byte_range end_text size
    else if is_empty end_text
    then open_ended_byte_range start_text size
    else closed_byte_range start_text end_text size

-- `"bytes="`
abbrev bytes_unit : Bytes
bytes_unit = codes "bytes="

-- behind the unit: one range, with its dash
range_spec : Bytes → ℤ → RangeResult
unfolding cut_range
range_spec spec size =
    if any (λ c. c == b',') spec then invalid else cut_range (cut b'-' (trim blanks spec)) size

range_value : Bytes → ℤ → RangeResult
unfolding range_spec
range_value value size =
    if ltb_ℤ size (pos 0)
    then invalid
    else if not (has_prefix (trim blanks value) bytes_unit)
    then invalid
    else range_spec (drop (length bytes_unit) (trim blanks value)) size

-- `requestByteRange`
unfoldable pub request_byte_range : List HeaderField → ℤ → RangeResult
unfolding range_value
request_byte_range headers size =
    if is_empty (header_value_fold headers (codes "Range"))
    then absent
    else range_value (header_value_fold headers (codes "Range")) size

-- the guard of `StreamRange`
unfoldable pub stream_range_refuses : ByteRange → ℤ → Bool
stream_range_refuses range size =
    ltb_ℤ range.start (pos 0) || ltb_ℤ range.last range.start || leb_ℤ size range.last
