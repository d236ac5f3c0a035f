-- ===== src/GoText.antt =====
-- What the code uses of Go's packages `strings`, `bytes` and `strconv`, over byte strings.
pub mod Cut
pub mod Trim
pub mod Number
pub mod Fold
use wbsv.Common.{
  ℕ, zero, suc, ◌+◌, ◌-◌, ◌*◌, ◌/◌, ◌%◌, ◌^◌, Bool, true, false, ◌&&◌, ◌||◌, Option, none, some,
  List, [], ◌∷◌, ◌++◌, ltb, leb, ◌==◌, if◌then◌else◌, Bytes, drop, any, bytes_eq, ℤ, pos, negsuc,
}
use mathlib.Core.List.{reverse}

-- Whether the byte is one of an ASCII set.
abbrev pub one_of : Bytes → ℕ → Bool
one_of [] c = false
one_of (x ∷ set) c = c == x || one_of set c

-- `strings.ContainsAny(s, set)`, for an ASCII set.
abbrev pub contains_any : Bytes → Bytes → Bool
contains_any s set = any (one_of set) s

-- `strings.HasPrefix`
unfoldable pub has_prefix : Bytes → Bytes → Bool
has_prefix s [] = true
has_prefix [] (x ∷ t) = false
has_prefix (c ∷ s) (x ∷ t) = c == x && has_prefix s t

-- `strings.HasSuffix`, `bytes.HasSuffix`
unfoldable pub has_suffix : Bytes → Bytes → Bool
unfolding has_prefix
has_suffix s t = has_prefix (reverse s) (reverse t)

abbrev pub cons_before : ℕ → Option (Bytes × Bytes) → Option (Bytes × Bytes)
cons_before c none = none
cons_before c (some (before, after)) = some (c ∷ before, after)

-- `strings.Cut(s, sep)` for a separator of one byte; `none` when it is not found.
unfoldable pub cut : ℕ → Bytes → Option (Bytes × Bytes)
cut sep [] = none
cut sep (c ∷ s) = let rest = cut sep s in if c == sep then some ([], s) else cons_before c rest

abbrev pub cons_head : ℕ → List Bytes → List Bytes
cons_head c [] = (c ∷ []) ∷ []
cons_head c (p ∷ ps) = (c ∷ p) ∷ ps

-- `strings.Split`, `strings.SplitSeq` for a separator of one byte.
unfoldable pub split : ℕ → Bytes → List Bytes
split sep [] = [] ∷ []
split sep (c ∷ s) = let rest = split sep s in if c == sep then [] ∷ rest else cons_head c rest

-- `strings.Join(parts, sep)` for a separator of one byte.
unfoldable pub join : ℕ → List Bytes → Bytes
join sep [] = []
join sep (p ∷ []) = p
join sep (p ∷ q ∷ ps) = p ++ sep ∷ join sep (q ∷ ps)

-- `strings.Join(parts, sep)` for any separator.
unfoldable pub join_text : Bytes → List Bytes → Bytes
join_text sep [] = []
join_text sep (p ∷ []) = p
join_text sep (p ∷ q ∷ ps) = p ++ (sep ++ join_text sep (q ∷ ps))

unfoldable pub trim_left : Bytes → Bytes → Bytes
trim_left set [] = []
trim_left set (c ∷ s) = let rest = trim_left set s in if one_of set c then rest else c ∷ s

abbrev pub keep_last : Bool → ℕ → Bytes → Bytes
keep_last drops c [] = if drops then [] else c ∷ []
keep_last drops c (d ∷ s) = c ∷ d ∷ s

unfoldable pub trim_right : Bytes → Bytes → Bytes
trim_right set [] = []
trim_right set (c ∷ s) = keep_last (one_of set c) c (trim_right set s)

-- `strings.Trim(s, set)`, for an ASCII set.
unfoldable pub trim : Bytes → Bytes → Bytes
unfolding trim_left trim_right
trim set s = trim_right set (trim_left set s)

abbrev pub lower_byte : ℕ → ℕ
lower_byte c = if leb b'A' c && leb c b'Z' then c + 32 else c

-- One byte of `fold`, with the bytes behind it as they are and folded. U+017F (long s) and U+212A
-- (Kelvin sign) are the only characters outside ASCII that fold to an ASCII one.
abbrev pub fold_byte : ℕ → Bytes → Bytes → Bytes
fold_byte c s folded =
    if c == 0xc5 && has_prefix s (0xbf ∷ [])
    then b's' ∷ drop 1 folded
    else if c == 0xe2 && has_prefix s (0x84 ∷ 0xaa ∷ [])
    then b'k' ∷ drop 2 folded
    else lower_byte c ∷ folded

pub fold : Bytes → Bytes
unfolding has_prefix
fold [] = []
fold (c ∷ s) = fold_byte c s (fold s)

-- `strings.EqualFold`; exact when one of the two texts is ASCII.
unfoldable pub equal_fold : Bytes → Bytes → Bool
unfolding fold bytes_eq
equal_fold s t = bytes_eq (fold s) (fold t)

abbrev pub is_digit : ℕ → Bool
is_digit c = leb b'0' c && leb c b'9'

unfoldable pub digits_from : ℕ → Bytes → Option ℕ
digits_from n [] = some n
digits_from n (c ∷ s) = if is_digit c then digits_from (n * 10 + (c - b'0')) s else none

-- An unsigned decimal number with at least one digit.
unfoldable pub parse_digits : Bytes → Option ℕ
unfolding digits_from
parse_digits [] = none
parse_digits (c ∷ s) = digits_from 0 (c ∷ s)

abbrev pub max_int64 : ℕ
max_int64 = 2 ^ 63 - 1

abbrev pub in_int64 : Bool → Option ℕ → Option ℤ
in_int64 negative none = none
in_int64 false (some n) = if leb n max_int64 then some (pos n) else none
in_int64 true (some zero) = some (pos 0)
in_int64 true (some (suc n)) = if leb n max_int64 then some (negsuc n) else none

-- `strconv.ParseInt(s, 10, 64)`; `none` is an error of syntax or of range.
unfoldable pub parse_int : Bytes → Option ℤ
unfolding parse_digits
parse_int [] = none
parse_int (c ∷ s) =
    if c == b'+'
    then in_int64 false (parse_digits s)
    else if c == b'-'
    then in_int64 true (parse_digits s)
    else in_int64 false (parse_digits (c ∷ s))

-- The decimal digits of `n`, on fuel.
unfoldable pub decimal : ℕ → ℕ → Bytes
decimal zero n = []
decimal (suc f) n =
    let front = decimal f (n / 10) in
    if ltb n 10 then (b'0' + n) ∷ [] else front ++ (b'0' + n % 10) ∷ []

-- `strconv.FormatInt(n, 10)`, `strconv.Itoa`; `suc n` rounds are enough.
unfoldable pub format_nat : ℕ → Bytes
unfolding decimal
format_nat n = decimal (suc n) n

unfoldable pub format_int : ℤ → Bytes
unfolding format_nat
format_int (pos n) = format_nat n
format_int (negsuc n) = b'-' ∷ format_nat (suc n)

-- The ASCII white space of `strings.TrimSpace`.
abbrev pub spaces : Bytes
spaces = b' ' ∷ b'\t' ∷ b'\n' ∷ 11 ∷ 12 ∷ b'\r' ∷ []

-- `strings.TrimSpace`; exact when no white space outside ASCII stands at an end
unfoldable pub trim_space : Bytes → Bytes
trim_space s = trim spaces s

-- The extension of a path whose bytes are given from the last one on; `behind` is what was passed.
unfoldable pub extension_from : Bytes → Bytes → Bytes
extension_from [] behind = []
extension_from (c ∷ s) behind =
    let rest = extension_from s (c ∷ behind) in
    if c == b'/' then [] else if c == b'.' then c ∷ behind else rest

-- `filepath.Ext`, where a slash is the separator
unfoldable pub path_extension : Bytes → Bytes
unfolding extension_from
path_extension path = extension_from (reverse path) []
