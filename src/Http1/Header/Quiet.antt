-- ===== src/Http1/Header/Quiet.antt =====
-- The functions of internal/http1/header.go do not panic.
use wbsv.Common.{
  ℕ, zero, suc, inl, inr, Bool, true, false, not, ◌&&◌, Option, none, some, List, [], ◌∷◌, ◌++◌,
  arith, Bool-cases, Bytes, codes, length, ℤ, ltb_ℤ, pos,
}
use wbsv.Http1.Errors.{
  ◌>>=◌, ◌>>◌, fail_if, fail_if, Calm, Calm->>=, Calm-fail_if, Error, Result, ok,
}
use wbsv.Http1.LineReader.{LineReader, read_line}
use wbsv.Http1.LineReader.Quiet.{read_line-Calm}
use wbsv.Http1.Header.{
  eq_ℤ, equal_fold, cut, parse_int, HeaderField, Round, parse_cut_field, parse_header_field,
  field_round, read_fields_from, read_header_fields, parsed_length, parse_content_length_value,
  content_length_from, content_length,
}
use wbsv.GoText.{equal_fold, parse_int, cut}

parse_cut_field-Calm : (found : Option (Bytes × Bytes)) → Calm (parse_cut_field found)
unfolding parse_cut_field
parse_cut_field-Calm none = tt
parse_cut_field-Calm (some (name, value)) = ground arith

field_round-Calm :
    (max : ℤ) (fields : List HeaderField) (line : Bytes) → Calm (field_round max fields line)
unfolding field_round parse_header_field
field_round-Calm max fields [] = tt
field_round-Calm max fields (c ∷ line) = Calm-fail_if _ Error.too_many_headers _ tt (
    Calm->>= (parse_header_field (c ∷ line)) _ (parse_cut_field-Calm (cut b':' (c ∷ line)))
      (λ f. tt))

read_fields_from-Calm :
    (fuel : ℕ) (max : ℤ) (fields : List HeaderField) (r : LineReader)
    → Calm (read_fields_from fuel max fields r)
unfolding read_fields_from
read_fields_from-Calm zero max fields r = tt
read_fields_from-Calm (suc fuel) max fields r = Calm->>= (read_line r) _ (read_line-Calm r) (λ l.
    Calm->>= (field_round max fields l.0) _ (field_round-Calm max fields l.0) (λ round.
      elim round
        as (λ next. Calm {A = List HeaderField × LineReader} (elim next [
          | Round.done ↦ ok (fields, l.1)
          | Round.more field ↦ read_fields_from fuel max (fields ++ field ∷ []) l.1
        ])) [
          | Round.done ↦ tt
          | Round.more field ↦ read_fields_from-Calm fuel max (fields ++ field ∷ []) l.1
        ]))

pub read_header_fields-Calm : (r : LineReader) (max : ℤ) → Calm (read_header_fields r max)
unfolding read_header_fields
read_header_fields-Calm r max = read_fields_from-Calm (suc (length r.input)) max [] r

parsed_length-Calm : (n : Option ℤ) → Calm (parsed_length n)
unfolding parsed_length
parsed_length-Calm none = tt
parsed_length-Calm (some n) = elim (Bool-cases (ltb_ℤ n (pos 0))) [
  | inl negative ↦ rw negative tt
  | inr other ↦ rw other tt
]

parse_content_length_value-Calm : (value : Bytes) → Calm (parse_content_length_value value)
unfolding parse_content_length_value
parse_content_length_value-Calm value = ground (arith, parsed_length-Calm (parse_int value))

content_length_from-Calm :
    (len : ℤ) (found : Bool) (fields : List HeaderField)
    → Calm (content_length_from len found fields)
unfolding content_length_from
content_length_from-Calm len found [] = tt
content_length_from-Calm len found (field ∷ fields) =
    elim (equal_fold field.name (codes "Content-Length"))
      as (λ same. Calm (elim same as (λ _. Result (ℤ × Bool)) [
        | false ↦ content_length_from len found fields
        | true ↦
            (parse_content_length_value field.value >>= λ current.
            fail_if (found && not (eq_ℤ current len)) Error.conflicting_header
            >> content_length_from current true fields)
      ])) [
        | false ↦ content_length_from-Calm len found fields
        | true ↦
            Calm->>= (parse_content_length_value field.value)
              (λ current.
                fail_if (found && not (eq_ℤ current len)) Error.conflicting_header
                >> content_length_from current true fields)
              (parse_content_length_value-Calm field.value)
              (λ current.
                Calm-fail_if (found && not (eq_ℤ current len)) Error.conflicting_header
                  (content_length_from current true fields) tt
                  (content_length_from-Calm current true fields))
      ]

pub content_length-Calm : (fields : List HeaderField) → Calm (content_length fields)
unfolding content_length
content_length-Calm fields = content_length_from-Calm (pos 0) false fields
