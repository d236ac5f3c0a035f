-- ===== src/Httpserver/Range/Bounds.antt =====
-- The ranges that are found lie inside the representation.
use wbsv.Common.{
  ℕ, suc, ◌+◌, ◌-◌, ◌≤◌, ◌<◌, ◌≡◌, refl, sym, inl, inr, Bool, true, false, not, ◌&&◌, ◌||◌, Option,
  none, some, List, [], ◌∷◌, arith, ◌==◌, if◌then◌else◌, Bool-cases, Bytes, codes, length, drop,
  any, ℤ, ◌-ℤ◌, ltb_ℤ, leb_ℤ, pos, negsuc,
}
use wbsv.Http1.Header.{blanks, is_empty, HeaderField}
use wbsv.Httpserver.Range.{
  bytes_unit, suffix_byte_range, header_value_fold, contains_any, non_negative, ByteRange,
  RangeResult, absent, found, invalid, byte_range, parse_range_number, closed_of, open_of,
  suffix_of, cut_range, range_spec, range_value, request_byte_range, stream_range_refuses,
}
use mathlib.Core.Path.{subst}
use wbsv.GoText.{cut, trim, parse_int, has_prefix, contains_any}
use wbsv.Httpserver.Headers.{header_value_fold}

-- The range is not empty, lies inside `size` bytes, and its length is that of its bounds.
pub record Within (range : ByteRange) (size : ℕ) : Type 0 where
  pub first : ℕ
  pub last : ℕ
  pub start_is : range.start ≡ pos first
  pub last_is : range.last ≡ pos last
  pub ordered : first ≤ last
  pub inside : last < size
  pub len_is : range.len ≡ pos (last - first + 1)

-- What is found lies inside, whatever the representation holds, if it is not empty.
abbrev pub Good : ℕ → RangeResult → Type 0
Good size absent = Unit
Good size invalid = Unit
Good size (found range) = Within range size

-- A number that was parsed is not negative.
abbrev IsNumber : Option ℤ → Type 0
IsNumber none = Unit
IsNumber (some (pos n)) = Unit
IsNumber (some (negsuc n)) = ⊥

non_negative-IsNumber : (o : Option ℤ) → IsNumber (non_negative o)
unfolding non_negative
non_negative-IsNumber none = tt
non_negative-IsNumber (some (pos n)) = subst IsNumber (sym (kept n)) tt
  where
    kept : (n : ℕ) → non_negative (some (pos n)) ≡ some (pos n)
    kept n = ground arith
non_negative-IsNumber (some (negsuc n)) = subst IsNumber (sym (refused n)) tt
  where
    refused : (n : ℕ) → non_negative (some (negsuc n)) ≡ none
    refused n = ground arith

parse_range_number-IsNumber : (s : Bytes) → IsNumber (parse_range_number s)
unfolding parse_range_number
parse_range_number-IsNumber s =
    elim (Bool-cases
      (is_empty s || contains_any s (b' ' ∷ b'\t' ∷ b'+' ∷ []) || has_prefix s (b'-' ∷ []))) [
        | inl bad ↦ rw bad tt
        | inr good ↦ rw good (non_negative-IsNumber (parse_int s))
      ]

byte_range-Within :
    (first last size : ℕ)
    → first ≤ last
    → last < size
    → Within (byte_range (pos first) (pos last)) size
unfolding byte_range
byte_range-Within first last size h k = record {
  first = first;
  last = last;
  start_is = refl;
  last_is = refl;
  ordered = h;
  inside = k;
  len_is = ground arith;
}

minus_one : (n : ℕ) → 0 < n → pos n -ℤ pos 1 ≡ pos (n - 1)
minus_one n h = ground arith

suffix_start : (a n : ℕ) → pos n -ℤ (if ltb_ℤ (pos n) (pos a) then pos n else pos a) ≡ pos (n - a)
suffix_start a n = ground arith

closed_of-Good :
    (start last : Option ℤ) (size : ℕ)
    → IsNumber start
    → IsNumber last
    → Good size (closed_of start last (pos size))
unfolding closed_of
closed_of-Good none last size h k = tt
closed_of-Good (some start) none size h k = tt
closed_of-Good (some (pos a)) (some (pos b)) size h k =
    elim (Bool-cases (ltb_ℤ (pos b) (pos a) || leb_ℤ (pos size) (pos a))) [
      | inl bad ↦ rw bad tt
      | inr good ↦ elim (Bool-cases (leb_ℤ (pos size) (pos b))) [
        | inl beyond ↦
            rw (good, beyond, minus_one size (ground arith))
              (byte_range-Within a (size - 1) size (ground arith) (ground arith))
        | inr inside ↦ rw (good, inside) (byte_range-Within a b size (ground arith) (ground arith))
      ]
    ]
closed_of-Good (some (negsuc a)) (some last) size h k = absurd h
closed_of-Good (some (pos a)) (some (negsuc b)) size h k = absurd k

open_of-Good : (start : Option ℤ) (size : ℕ) → IsNumber start → Good size (open_of start (pos size))
unfolding open_of
open_of-Good none size h = tt
open_of-Good (some (pos a)) size h = elim (Bool-cases (leb_ℤ (pos size) (pos a))) [
  | inl bad ↦ rw bad tt
  | inr good ↦
      rw (good, minus_one size (ground arith))
        (byte_range-Within a (size - 1) size (ground arith) (ground arith))
]
open_of-Good (some (negsuc a)) size h = absurd h

suffix_of-Good :
    (len : Option ℤ) (size : ℕ) → 0 < size → IsNumber len → Good size (suffix_of len (pos size))
unfolding suffix_of
suffix_of-Good none size p h = tt
suffix_of-Good (some (pos a)) size p h =
    elim (Bool-cases (leb_ℤ (pos a) (pos 0) && leb_ℤ (pos 0) (pos a))) [
      | inl bad ↦ rw bad tt
      | inr good ↦
          rw (good, suffix_start a size, minus_one size p)
            (byte_range-Within (size - a) (size - 1) size (ground arith) (ground arith))
    ]
suffix_of-Good (some (negsuc a)) size p h = absurd h

cut_range-Good :
    (o : Option (Bytes × Bytes)) (size : ℕ) → 0 < size → Good size (cut_range o (pos size))
unfolding cut_range
cut_range-Good none size p = tt
cut_range-Good (some (a, b)) size p = elim (Bool-cases (is_empty a)) [
  | inl suffix ↦
      rw suffix (suffix_of-Good (parse_range_number b) size p (parse_range_number-IsNumber b))
  | inr start ↦ elim (Bool-cases (is_empty b)) [
    | inl open_ended ↦
        rw (start, open_ended)
          (open_of-Good (parse_range_number a) size (parse_range_number-IsNumber a))
    | inr closed ↦
        rw (start, closed)
          (closed_of-Good (parse_range_number a) (parse_range_number b) size
            (parse_range_number-IsNumber a) (parse_range_number-IsNumber b))
  ]
]

Good-if :
    (b : Bool) (size : ℕ) (r : RangeResult) → Good size r → Good size (if b then invalid else r)
Good-if true size r h = tt
Good-if false size r h = h

range_value-Good : (value : Bytes) (size : ℕ) → 0 < size → Good size (range_value value (pos size))
unfolding range_value range_spec
range_value-Good value size p =
    let trimmed = trim blanks value in
    let spec = drop (length bytes_unit) trimmed in
    let cut_spec = cut b'-' (trim blanks spec) in
    Good-if (ltb_ℤ (pos size) (pos 0)) size
      (if not (has_prefix trimmed bytes_unit) then invalid else range_spec spec (pos size))
      (Good-if (not (has_prefix trimmed bytes_unit)) size (range_spec spec (pos size)) (
        Good-if (any (λ c. c == b',') spec) size (cut_range cut_spec (pos size))
          (cut_range-Good cut_spec size p)))

Within-accepted :
    (range : ByteRange) (size : ℕ)
    → Within range size
    → stream_range_refuses range (pos size) ≡ false
unfolding stream_range_refuses
Within-accepted range size w =
    rw (w.start_is, w.last_is) (in_order w.first w.last size w.ordered w.inside)
  where
    in_order :
        (a b n : ℕ)
        → a ≤ b
        → b < n
        → (ltb_ℤ (pos a) (pos 0) || ltb_ℤ (pos b) (pos a) || leb_ℤ (pos n) (pos b)) ≡ false
    in_order a b n h k = ground arith

-- Whatever the Range header says, a range that is found in a representation that is not empty is
-- not empty, lies inside the representation, carries the length of its bounds, and passes the guard
-- of `StreamRange`.
pub request_byte_range-Within :
    (headers : List HeaderField) (size : ℕ) (range : ByteRange)
    → 0 < size
    → request_byte_range headers (pos size) ≡ found range
    → Within range size × (stream_range_refuses range (pos size) ≡ false)
unfolding request_byte_range
request_byte_range-Within headers size range p h =
    let value = header_value_fold headers (codes "Range") in
    elim (Bool-cases (is_empty value)) [
      | inl missing ↦ absurd (apart (rw missing at h))
      | inr given ↦
          let within = subst (Good size) (rw given at h) (range_value-Good value size p) in
          (within, Within-accepted range size within)
    ]
  where
    apart : absent ≡ found range → ⊥
    apart e = ground arith

-- For an empty representation every suffix range with a positive length is found: it is the range
-- from 0 to -1 with length 0, which `StreamRange` refuses.
pub suffix_of_empty :
    (text : Bytes) (n : ℕ)
    → parse_range_number text ≡ some (pos (suc n))
    → (suffix_byte_range text (pos 0)
        ≡ found (record { start = pos 0; last = negsuc 0; len = pos 0 }))
      × (stream_range_refuses (record { start = pos 0; last = negsuc 0; len = pos 0 }) (pos 0)
          ≡ true)
unfolding suffix_byte_range stream_range_refuses
suffix_of_empty text n h = (rw (h, suffix_of) (ground arith), refl)
