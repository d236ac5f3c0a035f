-- ===== src/Http1/Response/Section.antt =====
-- A header section that was written is read back as the fields that it was written from.
use wbsv.Common.{
  ℕ, ◌≡◌, refl, sym, ap, ◌∙◌, ◌≢◌, inl, List, [], ◌∷◌, ◌++◌, append-nil, append_assoc, arith, Bytes,
  codes, All, All-append, All-map, Lacks, ◌≤ℤ◌, pos,
}
use wbsv.GoText.{trim_left, trim_right, trim, format_nat}
use wbsv.GoText.Trim.{EndsClean, IsTrimmed, trim_left_of_StartsClean, trim_right_of_EndsClean}
use wbsv.GoText.Number.{format_nat-IsDigits}
use wbsv.Http1.LineReader.{LineReader}
use wbsv.Http1.LineReader.Lines.{IsLine}
use wbsv.Http1.Header.{HeaderField, blanks, line_breaks, white}
use wbsv.Http1.Header.Field.{Avoids, IsField, IsFieldLine}
use wbsv.Http1.Header.Fields.{IsFields, here, field, IsSection}
use wbsv.Http1.Response.Head.{IsClean, header_bytes, block}

-- The reader that goes on with this input.
abbrev pub at : LineReader → Bytes → LineReader
at r input = record r { input = input }

Avoids-Lacks : (s : Bytes) → Avoids line_breaks s → Lacks b'\n' s
Avoids-Lacks = All-map (λ c h. ground arith)

white-line_breaks : (s : Bytes) → Avoids white s → Avoids line_breaks s
white-line_breaks = All-map (λ c h. ground arith)

trim_blank : (s : Bytes) → IsTrimmed blanks s → trim blanks (b' ' ∷ s) ≡ s
unfolding trim trim_left
trim_blank s (h, k) =
    ap (trim_right blanks) (trim_left_of_StartsClean blanks s h)
    ∙ trim_right_of_EndsClean blanks s k

pub IsField-IsClean : (f : HeaderField) → IsField f → IsClean f
IsField-IsClean f d = record {
  name_ne_nil = d.name_ne_nil;
  name_avoids = d.name_avoids;
  value_avoids = d.value_avoids;
}

abbrev line_of : HeaderField → Bytes
line_of f = f.name ++ (b':' ∷ b' ' ∷ f.value)

line_of-IsFieldLine : (f : HeaderField) → IsField f → IsFieldLine (line_of f) f
line_of-IsFieldLine f d = record {
  raw = b' ' ∷ f.value;
  splits = refl;
  no_colon = d.no_colon;
  name_ne_nil = d.name_ne_nil;
  name_avoids = d.name_avoids;
  raw_avoids = (refl, d.value_avoids);
  value_is = sym (trim_blank f.value d.value_trimmed);
}

line_of-Lacks : (f : HeaderField) → IsField f → Lacks b'\n' (line_of f)
line_of-Lacks f d =
    All-append (λ c. c ≢ b'\n') f.name (b':' ∷ b' ' ∷ f.value)
      (Avoids-Lacks f.name (white-line_breaks f.name d.name_avoids))
      (omega arith, (omega arith, Avoids-Lacks f.value d.value_avoids))

module _ (r : LineReader) (no_limit : r.max_line ≤ℤ pos 0) where
  pub IsLine-append :
      (l rest : Bytes) → Lacks b'\n' l → IsLine (at r (l ++ (b'\r' ∷ b'\n' ∷ rest))) l (at r rest)
  IsLine-append l rest h = record { splits = refl; lacks = h; fits = inl no_limit; same = refl }

  block-IsFields :
      (fs : List HeaderField) (rest : Bytes)
      → All IsField fs
      → IsFields (at r (block fs ++ rest)) fs (at r rest)
  unfolding block
  block-IsFields [] rest h = here
  block-IsFields (f ∷ fs) rest (d, h) =
      field (rw spelled (IsLine-append (line_of f) (block fs ++ rest) (line_of-Lacks f d)))
        (line_of-IsFieldLine f d) (block-IsFields fs rest h)
    where
      spelled :
          (header_bytes f ++ block fs) ++ rest ≡ line_of f ++ (b'\r' ∷ b'\n' ∷ (block fs ++ rest))
      spelled = simp append_assoc

  -- The lines of these fields and an empty line are a section with these fields.
  pub block-IsSection :
      (fs : List HeaderField) (rest : Bytes)
      → All IsField fs
      → IsSection (at r (block fs ++ (b'\r' ∷ b'\n' ∷ rest))) fs (at r rest)
  block-IsSection fs rest h = record {
    last = at r (b'\r' ∷ b'\n' ∷ rest);
    fields = block-IsFields fs (b'\r' ∷ b'\n' ∷ rest) h;
    ends = IsLine-append [] rest tt;
  }

pub block-append : (fs gs : List HeaderField) → block (fs ++ gs) ≡ block fs ++ block gs
unfolding block
block-append [] gs = refl
block-append (f ∷ fs) gs = rw (block-append fs gs) (simp append_assoc)

pub block-single : (f : HeaderField) → block (f ∷ []) ≡ header_bytes f
unfolding block
block-single f = append-nil (header_bytes f)

abbrev pub content_length_field : ℕ → HeaderField
content_length_field n = record { name = codes "Content-Length"; value = format_nat n }

Avoids-EndsClean : (set s : Bytes) → Avoids set s → EndsClean set s
Avoids-EndsClean set [] h = tt
Avoids-EndsClean set (c ∷ []) (p, h) = p
Avoids-EndsClean set (c ∷ d ∷ s) (p, h) = Avoids-EndsClean set (d ∷ s) h

Avoids-IsTrimmed : (set s : Bytes) → Avoids set s → IsTrimmed set s
Avoids-IsTrimmed set [] h = (tt, tt)
Avoids-IsTrimmed set (c ∷ s) h = (h.0, Avoids-EndsClean set (c ∷ s) h)

pub content_length_field-IsField : (n : ℕ) → IsField (content_length_field n)
content_length_field-IsField n = record {
  no_colon = omega arith;
  name_ne_nil = λ e. cc;
  name_avoids = ground arith;
  value_avoids = All-map (λ c h. ground arith) (format_nat n) (format_nat-IsDigits n);
  value_trimmed =
      Avoids-IsTrimmed blanks (format_nat n)
        (All-map (λ c h. ground arith) (format_nat n) (format_nat-IsDigits n));
}
