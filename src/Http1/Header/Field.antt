-- ===== src/Http1/Header/Field.antt =====
-- `ParseHeaderField` against the form of a field line.
use wbsv.Common.{
  ◌≡◌, refl, ◌≢◌, ◌↔◌, inl, inr, false, some, [], ◌∷◌, ◌++◌, arith, Option-cases, Bytes, All, Lacks,
}
use wbsv.GoText.{one_of, contains_any, cut, trim}
use wbsv.GoText.Cut.{cut-append, cut_sound, contains_any-eq-false}
use wbsv.GoText.Trim.{IsTrimmed, trim-IsTrimmed, trim-All}
use wbsv.Http1.Errors.{malformed_header, ok, fail_if-eq-ok}
use wbsv.Http1.Header.{
  HeaderField, is_empty, blanks, line_breaks, white, parse_cut_field, parse_header_field,
}

-- No byte of the text is in the set.
abbrev pub Avoids : Bytes → Bytes → Type 0
Avoids set s = All (λ c. one_of set c ≡ false) s

pub is_empty-eq-false : {s : Bytes} → is_empty s ≡ false → s ≢ []
is_empty-eq-false {s} h e = cc

pub is_empty_of_ne_nil : (s : Bytes) → s ≢ [] → is_empty s ≡ false
is_empty_of_ne_nil [] h = absurd (h refl)
is_empty_of_ne_nil (c ∷ s) h = refl

-- The line is a name, a colon and a raw value, and `field` holds the name and the trimmed value.
pub record IsFieldLine (line : Bytes) (field : HeaderField) : Type 0 where
  pub raw : Bytes
  pub splits : line ≡ field.name ++ b':' ∷ raw
  pub no_colon : Lacks b':' field.name
  pub name_ne_nil : field.name ≢ []
  pub name_avoids : Avoids white field.name
  pub raw_avoids : Avoids line_breaks raw
  pub value_is : field.value ≡ trim blanks raw

parse_cut_field_sound :
    (name raw : Bytes) {f : HeaderField}
    → parse_cut_field (some (name, raw)) ≡ ok f
    → (name ≢ [])
      × Avoids white name
      × Avoids line_breaks raw
      × (f ≡ record { name = name; value = trim blanks raw })
unfolding parse_cut_field
parse_cut_field_sound name raw h =
    let (nonempty, h1) = fail_if-eq-ok (is_empty name) malformed_header _ h in
    let (clean_name, h2) = fail_if-eq-ok (contains_any name white) malformed_header _ h1 in
    let (clean_raw, h3) = fail_if-eq-ok (contains_any raw line_breaks) malformed_header _ h2 in
    (
      (λ e. cc),
      (contains_any-eq-false name white).0 clean_name,
      (contains_any-eq-false raw line_breaks).0 clean_raw,
      ground arith,
    )

parse_header_field_sound :
    (line : Bytes) (f : HeaderField) → parse_header_field line ≡ ok f → IsFieldLine line f
unfolding parse_header_field
parse_header_field_sound line f h = elim (Option-cases (cut b':' line)) [
  | inl missing ↦ cc (rw missing at h)
  | inr ((name, raw), e) ↦
      let (splits, lacks) = cut_sound b':' line name raw e in
      let (nonempty, clean_name, clean_raw, same) = parse_cut_field_sound name raw (rw e at h) in
      rw same (record {
        raw = raw;
        splits = splits;
        no_colon = lacks;
        name_ne_nil = nonempty;
        name_avoids = clean_name;
        raw_avoids = clean_raw;
        value_is = refl;
      })
]

parse_header_field_complete :
    (line : Bytes) (f : HeaderField) → IsFieldLine line f → parse_header_field line ≡ ok f
unfolding parse_header_field parse_cut_field
parse_header_field_complete line f d =
    rw
      (
        d.splits,
        cut-append b':' f.name d.raw d.no_colon,
        is_empty_of_ne_nil f.name d.name_ne_nil,
        (contains_any-eq-false f.name white).1 d.name_avoids,
        (contains_any-eq-false d.raw line_breaks).1 d.raw_avoids,
      )
      (ground (arith, d.value_is))

-- `ParseHeaderField` returns a field exactly for the lines that are a name, a colon and a value:
-- the name is not empty and holds no colon, blank, tab or line break, the value holds no line
-- break, and the field's value is the value without blanks and tabs at its ends.
pub parse_header_field_iff :
    (line : Bytes) (f : HeaderField) → (parse_header_field line ≡ ok f) ↔ IsFieldLine line f
parse_header_field_iff line f =
    (parse_header_field_sound line f, parse_header_field_complete line f)

-- A field that a header line can carry.
pub record IsField (f : HeaderField) : Type 0 where
  pub no_colon : Lacks b':' f.name
  pub name_ne_nil : f.name ≢ []
  pub name_avoids : Avoids white f.name
  pub value_avoids : Avoids line_breaks f.value
  pub value_trimmed : IsTrimmed blanks f.value

-- What was parsed can be carried.
pub parse_header_field-IsField :
    (line : Bytes) {f : HeaderField} → parse_header_field line ≡ ok f → IsField f
parse_header_field-IsField line {f} h =
    let d = parse_header_field_sound line f h in
    record {
      no_colon = d.no_colon;
      name_ne_nil = d.name_ne_nil;
      name_avoids = d.name_avoids;
      value_avoids =
          rw d.value_is (trim-All (λ c. one_of line_breaks c ≡ false) blanks d.raw d.raw_avoids);
      value_trimmed = rw d.value_is (trim-IsTrimmed blanks d.raw);
    }
