-- ===== src/Http1/Header.antt =====
-- internal/http1/header.go: header fields, the Content-Length of a header section, and tokens.
pub mod Field
pub mod Quiet
pub mod Fields
pub mod Length
use wbsv.Common.{
  ℕ, zero, suc, Bool, true, false, not, ◌&&◌, ◌||◌, Option, none, some, List, [], ◌∷◌, ◌++◌,
  if◌then◌else◌, Bytes, codes, length, any, ℤ, ltb_ℤ, leb_ℤ, pos,
}
use wbsv.GoText.{contains_any, has_prefix, cut, split, trim, equal_fold, parse_int}
use wbsv.Http1.Errors.{
  Error, unexpected_eof, malformed_header, too_many_headers, invalid_content_length,
  conflicting_header, Result, ok, err, ◌>>=◌, ◌>>◌, fail_if,
}
use wbsv.Http1.LineReader.{LineReader, read_line}

pub record HeaderField : Type 0 where
  pub name : Bytes
  pub value : Bytes

abbrev pub is_empty {ℓ} : {A : Type ℓ} → List A → Bool
is_empty [] = true
is_empty (x ∷ xs) = false

-- `" \t"`, the bytes that are trimmed off a value
abbrev pub blanks : Bytes
blanks = b' ' ∷ b'\t' ∷ []

abbrev pub line_breaks : Bytes
line_breaks = b'\r' ∷ b'\n' ∷ []

-- `" \t\r\n"`
abbrev pub white : Bytes
white = b' ' ∷ b'\t' ∷ b'\r' ∷ b'\n' ∷ []

-- `ParseHeaderField` behind its `strings.Cut`
parse_cut_field : Option (Bytes × Bytes) → Result HeaderField
parse_cut_field none = err malformed_header
parse_cut_field (some (name, value)) = do
  fail_if (is_empty name) malformed_header
  fail_if (contains_any name white) malformed_header
  fail_if (contains_any value line_breaks) malformed_header
  ok (record { name = name; value = trim blanks value })

unfoldable pub parse_header_field : Bytes → Result HeaderField
unfolding parse_cut_field
parse_header_field line = parse_cut_field (cut b':' line)

-- `maxHeaders > 0 && len(fields) >= maxHeaders`
abbrev pub at_limit : ℤ → ℕ → Bool
at_limit max n = ltb_ℤ (pos 0) max && leb_ℤ max (pos n)

-- What the loop of `ReadHeaderFields` does with one line: it is done, or has one field more.
pub data Round : Type 0 where
  done : Round
  more : HeaderField → Round

field_round : ℤ → List HeaderField → Bytes → Result Round
unfolding parse_header_field
field_round max fields [] = ok done
field_round max fields (c ∷ line) = do
  fail_if (at_limit max (length fields)) too_many_headers
  field ← parse_header_field (c ∷ line)
  ok (more field)

-- the loop of `ReadHeaderFields`, on fuel
read_fields_from : ℕ → ℤ → List HeaderField → LineReader → Result (List HeaderField × LineReader)
unfolding field_round
read_fields_from zero max fields r = err unexpected_eof
read_fields_from (suc fuel) max fields r = do
  (line, r') ← read_line r
  round ← field_round max fields line
  elim round [
    | done ↦ ok (fields, r')
    | more field ↦ read_fields_from fuel max (fields ++ field ∷ []) r'
  ]

-- Every line takes two bytes of the input at least, so the fuel never runs out.
unfoldable pub read_header_fields : LineReader → ℤ → Result (List HeaderField × LineReader)
unfolding read_fields_from
read_header_fields r max = read_fields_from (suc (length r.input)) max [] r

-- the tail of `parseContentLengthValue`, on the result of `strconv.ParseInt`
parsed_length : Option ℤ → Result ℤ
parsed_length none = err invalid_content_length
parsed_length (some n) = if ltb_ℤ n (pos 0) then err invalid_content_length else ok n

unfoldable pub parse_content_length_value : Bytes → Result ℤ
unfolding parsed_length
parse_content_length_value value = do
  fail_if (is_empty value) invalid_content_length
  fail_if (has_prefix value (b'+' ∷ []) || has_prefix value (b'-' ∷ [])) invalid_content_length
  parsed_length (parse_int value)

abbrev pub eq_ℤ : ℤ → ℤ → Bool
eq_ℤ a b = leb_ℤ a b && leb_ℤ b a

-- the loop of `ContentLength` over its variables `length` and `found`
content_length_from : ℤ → Bool → List HeaderField → Result (ℤ × Bool)
content_length_from len found [] = ok (len, found)
content_length_from len found (field ∷ fields) =
    elim (equal_fold field.name (codes "Content-Length")) [
      | false ↦ content_length_from len found fields
      | true ↦ do
        current ← parse_content_length_value field.value
        fail_if (found && not (eq_ℤ current len)) conflicting_header
        content_length_from current true fields
    ]

unfoldable pub content_length : List HeaderField → Result (ℤ × Bool)
unfolding content_length_from
content_length fields = content_length_from (pos 0) false fields

-- whether one of the comma-separated values is the token
abbrev pub value_has_token : Bytes → Bytes → Bool
value_has_token token value = any (λ v. equal_fold (trim blanks v) token) (split b',' value)

unfoldable pub header_has_token : List HeaderField → Bytes → Bytes → Bool
header_has_token fields name token =
    any (λ (field : HeaderField). equal_fold field.name name && value_has_token token field.value)
      fields
