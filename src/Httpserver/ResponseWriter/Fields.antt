-- ===== src/Httpserver/ResponseWriter/Fields.antt =====
-- Setting a header field and reading it back.
use wbsv.Common.{◌≡◌, refl, inl, inr, true, false, List, [], ◌∷◌, arith, Bool-cases, Bytes}
use wbsv.Http1.Header.{HeaderField}
use wbsv.Httpserver.ResponseWriter.{set_field, set_header, ResponseWriter}
use wbsv.GoText.{equal_fold}
use wbsv.GoText.Fold.{equal_fold_refl, equal_fold_trans}
use wbsv.Httpserver.Headers.{header_value_fold}

header_value_fold-set_field :
    (headers : List HeaderField) (name value : Bytes)
    → header_value_fold (set_field headers name value) name ≡ value
unfolding header_value_fold set_field
header_value_fold-set_field [] name value = rw (equal_fold_refl name) refl
header_value_fold-set_field (header ∷ headers) name value =
    elim (Bool-cases (equal_fold header.name name)) [
      | inl same ↦ rw (same, same) refl
      | inr other ↦ rw (other, other) (header_value_fold-set_field headers name value)
    ]

header_value_fold-set_field_other :
    (headers : List HeaderField) (name value other : Bytes)
    → equal_fold name other ≡ false
    → header_value_fold (set_field headers name value) other ≡ header_value_fold headers other
unfolding header_value_fold set_field
header_value_fold-set_field_other [] name value other h = rw h refl
header_value_fold-set_field_other (header ∷ headers) name value other h =
    elim (Bool-cases (equal_fold header.name name)) [
      | inl same ↦ elim (Bool-cases (equal_fold header.name other)) [
        | inl both ↦
            let clash : equal_fold name other ≡ true =
              equal_fold_trans header.name name other same both in
            ground (arith, clash, h)
        | inr differs ↦ rw (same, differs) refl
      ]
      | inr differs ↦
          rw (differs, header_value_fold-set_field_other headers name value other h) refl
    ]

-- `SetHeader`, in any case of letters: the field then has this value, and the fields of all other
-- names keep theirs.
pub header_value_fold-set_header :
    (w : ResponseWriter) (name value other : Bytes)
    → equal_fold name other ≡ false
    → (header_value_fold (set_header w name value).headers name ≡ value)
      × (header_value_fold (set_header w name value).headers other
          ≡ header_value_fold w.headers other)
unfolding set_header
header_value_fold-set_header w name value other h = (
  header_value_fold-set_field w.headers name value,
  header_value_fold-set_field_other w.headers name value other h,
)
