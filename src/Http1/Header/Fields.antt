-- ===== src/Http1/Header/Fields.antt =====
-- `ReadHeaderFields` against the form of a header section.
use Prim.Native.Nat.add
use wbsv.Common.{
  ℕ, zero, suc, ◌+◌, ◌-◌, ◌≤◌, ◌<◌, ◌≡◌, refl, sym, ap, ◌∙◌, ◌≢◌, ◌↔◌, true, false, List, [], ◌∷◌,
  ◌++◌, append-nil, append_assoc, arith, Bytes, length, length-append, ℤ, pos,
}
use wbsv.GoText.{cut}
use wbsv.Http1.Errors.{too_many_headers, ok, err, fail_if-eq-ok, >>=-eq-ok}
use wbsv.Http1.LineReader.{LineReader, read_line}
use wbsv.Http1.LineReader.Lines.{Allows, IsLine, read_line_iff}
use wbsv.Http1.Header.{
  HeaderField, parse_header_field, at_limit, Round, done, more, field_round, read_fields_from,
  read_header_fields,
}
use wbsv.Http1.Header.Field.{IsFieldLine, parse_header_field_iff}

-- The lines from `r` up to `r'` are the lines of these fields.
pub data IsFields : LineReader → List HeaderField → LineReader → Type 0 where
  here : {r : LineReader} → IsFields r [] r
  field :
      {r s t : LineReader} {line : Bytes} {f : HeaderField} {fs : List HeaderField}
      → IsLine r line s
      → IsFieldLine line f
      → IsFields s fs t
      → IsFields r (f ∷ fs) t

-- A header section: the lines of its fields, and an empty line.
pub record IsSection (r : LineReader) (fs : List HeaderField) (r' : LineReader) : Type 0 where
  pub last : LineReader
  pub fields : IsFields r fs last
  pub ends : IsLine last [] r'

field_round-eq-more :
    (max : ℤ) (acc : List HeaderField) (line : Bytes) (f : HeaderField)
    → at_limit max (length acc) ≡ false
    → parse_header_field line ≡ ok f
    → field_round max acc line ≡ ok (more f)
unfolding field_round
field_round-eq-more max acc [] f h e = unfold parse_header_field cut in cc e
field_round-eq-more max acc (c ∷ line) f h e = rw (h, e)

field_round_sound :
    (max : ℤ) (acc : List HeaderField) (line : Bytes) (f : HeaderField)
    → field_round max acc line ≡ ok (more f)
    → (at_limit max (length acc) ≡ false) × (parse_header_field line ≡ ok f)
unfolding field_round
field_round_sound max acc [] f h = absurd (ground arith)
field_round_sound max acc (c ∷ line) f h =
    let (under, h1) = fail_if-eq-ok (at_limit max (length acc)) too_many_headers _ h in
    let (g, e, same) = >>=-eq-ok (parse_header_field (c ∷ line)) _ h1 in (under, e ∙ ground arith)

field_round-eq-done :
    (max : ℤ) (acc : List HeaderField) (line : Bytes)
    → field_round max acc line ≡ ok done
    → line ≡ []
unfolding field_round
field_round-eq-done max acc [] h = refl
field_round-eq-done max acc (c ∷ line) h =
    let (_, h1) = fail_if-eq-ok (at_limit max (length acc)) too_many_headers _ h in
    let (g, e, same) = >>=-eq-ok (parse_header_field (c ∷ line)) _ h1 in absurd (apart g same)
  where
    apart : (g : HeaderField) → ok (more g) ≡ ok done → ⊥
    apart g e = ground arith

module _ (max : ℤ) where
  read_fields_step :
      (k : ℕ) (acc : List HeaderField) {r s : LineReader} {line : Bytes} {f : HeaderField}
      → IsLine r line s
      → IsFieldLine line f
      → at_limit max (length acc) ≡ false
      → read_fields_from (suc k) max acc r ≡ read_fields_from k max (acc ++ f ∷ []) s
  unfolding read_fields_from
  read_fields_step k acc {r} {s} {line} {f} d e h = rw (
    (read_line_iff r line s).1 d,
    read_fields_from,
    field_round-eq-more max acc line f h ((parse_header_field_iff line f).1 e),
  )

  read_fields_end :
      (k : ℕ) (acc : List HeaderField) {r s : LineReader}
      → IsLine r [] s
      → read_fields_from (suc k) max acc r ≡ ok (acc, s)
  unfolding read_fields_from
  read_fields_end k acc {r} {s} d = rw ((read_line_iff r [] s).1 d)

  read_fields_over :
      (k : ℕ) (acc : List HeaderField) {r s : LineReader} {c : ℕ} {line : Bytes}
      → IsLine r (c ∷ line) s
      → at_limit max (length acc) ≡ true
      → read_fields_from (suc k) max acc r ≡ err too_many_headers
  unfolding read_fields_from
  read_fields_over k acc {r} {s} {c} {line} d h = rw ((read_line_iff r (c ∷ line) s).1 d, h)

  under_limit : (n m : ℕ) → Allows max (n + suc m) → at_limit max n ≡ false
  under_limit n m h = ground arith

  read_fields_from-IsFields :
      (k : ℕ) (acc : List HeaderField) {r s : LineReader} {fs : List HeaderField}
      → IsFields r fs s
      → Allows max (length acc + length fs)
      → read_fields_from (length fs + k) max acc r ≡ read_fields_from k max (acc ++ fs) s
  read_fields_from-IsFields k acc here h = rw (append-nil, add.zero)
  read_fields_from-IsFields k acc (field {f} {fs} d e rest) h = rw add.suc (
      read_fields_step (length fs + k) acc d e (under_limit (length acc) (length fs) h)
      ∙ read_fields_from-IsFields k (acc ++ f ∷ []) rest (omega (arith, length-append acc (f ∷ [])))
      ∙ rw append_assoc)

-- Each line takes two bytes at least.
IsLine-length : {r s : LineReader} (l : Bytes) → IsLine r l s → length s.input + 2 ≤ length r.input
IsLine-length {r} {s} l d =
    omega (arith, ap length d.splits, length-append l (b'\r' ∷ b'\n' ∷ s.input))

IsFields-length :
    {r s : LineReader} {fs : List HeaderField}
    → IsFields r fs s
    → length fs + length s.input ≤ length r.input
IsFields-length here = omega arith
IsFields-length (field {line} d e rest) = omega (arith, IsLine-length line d, IsFields-length rest)

-- What one round of a successful loop has done.
data RoundOf (k : ℕ) (max : ℤ) (acc : List HeaderField) (r : LineReader)
    (v : List HeaderField × LineReader) : Type 0 where
  finished : (s : LineReader) → IsLine r [] s → v ≡ (acc, s) → RoundOf k max acc r v
  another :
      (line : Bytes) (f : HeaderField) (s : LineReader)
      → IsLine r line s
      → IsFieldLine line f
      → at_limit max (length acc) ≡ false
      → read_fields_from k max (acc ++ f ∷ []) s ≡ ok v
      → RoundOf k max acc r v

read_fields_inv :
    (k : ℕ) (max : ℤ) (acc : List HeaderField) (r : LineReader) {v : List HeaderField × LineReader}
    → read_fields_from (suc k) max acc r ≡ ok v
    → RoundOf k max acc r v
unfolding read_fields_from
read_fields_inv k max acc r {v} h =
    let ((line, s), e, h1) = >>=-eq-ok (read_line r) _ h in
    let (round, e1, h2) = >>=-eq-ok (field_round max acc line) _ h1 in
    of_round line s round ((read_line_iff r line s).0 e) e1 h2
  where
    of_round :
        (line : Bytes) (s : LineReader) (round : Round)
        → IsLine r line s
        → field_round max acc line ≡ ok round
        → elim round [ done ↦ ok (acc, s) | more f ↦ read_fields_from k max (acc ++ f ∷ []) s ]
          ≡ ok v
        → RoundOf k max acc r v
    of_round line s done d e h =
        finished s (rw (field_round-eq-done max acc line e) at d) (ground arith)
    of_round line s (more f) d e h =
        let (under, parsed) = field_round_sound max acc line f e in
        another line f s d ((parse_header_field_iff line f).0 parsed) under h

at_limit-suc : (max : ℤ) (n : ℕ) → at_limit max n ≡ false → Allows max (n + 1)
at_limit-suc max n h = ground arith

read_fields_sound :
    (k : ℕ) (max : ℤ) (acc : List HeaderField) (r : LineReader) {out : List HeaderField}
    {r' : LineReader}
    → Allows max (length acc)
    → read_fields_from k max acc r ≡ ok (out, r')
    → (fs : List HeaderField) × (out ≡ acc ++ fs) × IsSection r fs r' × Allows max (length out)
read_fields_sound zero max acc r h e = unfold read_fields_from in cc e
read_fields_sound (suc k) max acc r {out} {r'} h e = elim (read_fields_inv k max acc r e) [
  | finished s d same ↦
      let out_is : out ≡ acc = ap (λ (v : List HeaderField × LineReader). v.0) same in
      let r'_is : r' ≡ s = ap (λ (v : List HeaderField × LineReader). v.1) same in
      (
        [],
        out_is ∙ sym (append-nil acc),
        record { last = r; fields = here; ends = rw r'_is d },
        rw out_is h,
      )
  | another line f s d e' under h' ↦
      let (fs, same, rest, allowed) =
        read_fields_sound k max (acc ++ f ∷ []) s
          (rw (length-append acc (f ∷ [])) (at_limit-suc max (length acc) under)) h' in
      (
        f ∷ fs,
        same ∙ append_assoc acc (f ∷ []) fs,
        record { last = rest.last; fields = field d e' rest.fields; ends = rest.ends },
        allowed,
      )
]

read_fields_complete :
    (k : ℕ) (max : ℤ) (r : LineReader) {fs : List HeaderField} {r' : LineReader}
    → length r.input < k
    → Allows max (length fs)
    → IsSection r fs r'
    → read_fields_from k max [] r ≡ ok (fs, r')
read_fields_complete k max r {fs} {r'} small h d =
    let enough : k ≡ length fs + suc (k - length fs - 1) =
      omega (arith, IsFields-length d.fields) in
    rw enough (
      read_fields_from-IsFields max (suc (k - length fs - 1)) [] d.fields (omega arith)
      ∙ read_fields_end max (k - length fs - 1) fs d.ends)

-- `ReadHeaderFields` returns the fields `fs` and leaves the reader as `r'` exactly when the input
-- begins with a line for each of them and an empty line, `r'` is the reader behind that, and the
-- limit, if it is positive, is not below their number.
pub read_header_fields_iff :
    (r : LineReader) (max : ℤ) (fs : List HeaderField) (r' : LineReader)
    → (read_header_fields r max ≡ ok (fs, r')) ↔ (IsSection r fs r' × Allows max (length fs))
unfolding read_header_fields
read_header_fields_iff r max fs r' = (
  λ h.
      let (fs', same, d, allowed) =
        read_fields_sound (suc (length r.input)) max [] r (omega arith) h in
      (rw (← same) at d, allowed),
  λ h. read_fields_complete (suc (length r.input)) max r (omega arith) h.1 h.0,
)

-- With as many fields read as the limit allows, one more line that is not empty is an error.
pub read_header_fields_too_many :
    (r s t : LineReader) (fs : List HeaderField) (c : ℕ) (line : Bytes)
    → IsFields r fs s
    → fs ≢ []
    → IsLine s (c ∷ line) t
    → read_header_fields r (pos (length fs)) ≡ err too_many_headers
unfolding read_header_fields
read_header_fields_too_many r s t fs c line d ne e =
    let n = length fs in
    let rest = length r.input - n in
    let enough : suc (length r.input) ≡ n + suc rest = omega (arith, IsFields-length d) in
    ap (λ k. read_fields_from k (pos n) [] r) enough
    ∙ read_fields_from-IsFields (pos n) (suc rest) [] d (omega arith)
    ∙ read_fields_over (pos n) rest fs e (reached fs ne)
  where
    reached : (xs : List HeaderField) → xs ≢ [] → at_limit (pos (length xs)) (length xs) ≡ true
    reached [] h = absurd (h refl)
    reached (x ∷ xs) h = ground arith
