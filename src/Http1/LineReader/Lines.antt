-- ===== src/Http1/LineReader/Lines.antt =====
-- What `ReadLine` accepts: exactly the lines that end in CRLF within the limit.
use mathlib.Core.List.{append_cancel_right}
use wbsv.Common.{
  ℕ, ◌+◌, ◌-◌, ◌≤◌, ◌≡◌, sym, ap, ap₂, ◌∙◌, ◌≢◌, ◌↔◌, ◌⊎◌, inl, inr, false, [], ◌∷◌, ◌++◌,
  append-nil, append_assoc, arith, ◌==◌, Bool-cases, Bytes, length, length-append, take-append,
  All-append_left, Lacks, ℤ, ◌≤ℤ◌, pos,
}
use wbsv.GoText.{has_suffix}
use wbsv.GoText.Cut.{has_suffix-append, has_suffix_sound}
use wbsv.Http1.Errors.{ok}
use wbsv.Http1.LineReader.{LineReader, crlf, over_limit, finish_line, read_line_from, read_line}

-- The limit allows `n` bytes; a limit that is not positive allows any number.
abbrev pub Allows : ℤ → ℕ → Type 0
Allows max n = (max ≤ℤ pos 0) ⊎ (pos n ≤ℤ max)

pub over_limit_of_Allows : (max : ℤ) (n : ℕ) → Allows max n → over_limit max n ≡ false
over_limit_of_Allows max n h = ground arith

pub over_limit-Allows : (max : ℤ) (n : ℕ) → over_limit max n ≡ false → Allows max n
over_limit-Allows max n h = ground arith

pub Allows-mono : (max : ℤ) (n m : ℕ) → n ≤ m → Allows max m → Allows max n
Allows-mono max n m h k = ground arith

finish_line-append :
    (r : LineReader) (l input : Bytes)
    → finish_line r (l ++ crlf) input ≡ ok (l, record r { input = input })
unfolding finish_line
finish_line-append r l input =
    rw (has_suffix-append l crlf, length-append l crlf)
      (rw (sub_two (length l), take-append l crlf))
  where
    sub_two : (n : ℕ) → n + 2 - 2 ≡ n
    sub_two n = omega arith

finish_line_sound :
    (r : LineReader) (line input : Bytes) {l : Bytes} {r' : LineReader}
    → finish_line r line input ≡ ok (l, r')
    → (line ≡ l ++ crlf) × (r' ≡ record r { input = input })
finish_line_sound r line input h = elim (Bool-cases (has_suffix line crlf)) [
  | inl ends ↦
      let (front, e) = has_suffix_sound line crlf ends in
      let same = sym (finish_line-append r front input) ∙ (rw e at h) in ground (arith, e)
  | inr other ↦ unfold finish_line in cc (rw other at h)
]

read_line_from-cons :
    (r : LineReader) (acc : Bytes) (c : ℕ) (input : Bytes)
    → c ≢ b'\n'
    → Allows r.max_line (length acc + 1)
    → read_line_from r acc (c ∷ input) ≡ read_line_from r (acc ++ c ∷ []) input
unfolding read_line_from
read_line_from-cons r acc c input ne h =
    ground
      (arith, length-append acc (c ∷ []), over_limit_of_Allows r.max_line (length (acc ++ c ∷ [])))

read_line_from_newline :
    (r : LineReader) (acc input : Bytes)
    → Allows r.max_line (length acc + 1)
    → read_line_from r acc (b'\n' ∷ input) ≡ finish_line r (acc ++ b'\n' ∷ []) input
unfolding read_line_from
read_line_from_newline r acc input h = ground (
  arith,
  length-append acc (b'\n' ∷ []),
  over_limit_of_Allows r.max_line (length (acc ++ b'\n' ∷ [])),
)

read_line_from-append :
    (r : LineReader) (acc l rest : Bytes)
    → Lacks b'\n' l
    → Allows r.max_line (length acc + length l + 2)
    → read_line_from r acc (l ++ (b'\r' ∷ b'\n' ∷ rest)) ≡ ok (acc ++ l, record r { input = rest })
read_line_from-append r acc [] rest _ h =
    read_line_from-cons r acc b'\r' (b'\n' ∷ rest) (omega arith) (omega arith)
    ∙ read_line_from_newline r (acc ++ b'\r' ∷ []) rest
        (omega (arith, length-append acc (b'\r' ∷ [])))
    ∙ rw append_assoc (rw append-nil (finish_line-append r acc rest))
read_line_from-append r acc (c ∷ l) rest (ne, lacks) h =
    read_line_from-cons r acc c (l ++ (b'\r' ∷ b'\n' ∷ rest)) ne (omega arith)
    ∙ read_line_from-append r (acc ++ c ∷ []) l rest lacks
        (omega (arith, length-append acc (c ∷ [])))
    ∙ rw append_assoc

-- What a line that was read tells of the input, with `acc` read before.
record Read (r : LineReader) (acc input l : Bytes) (r' : LineReader) : Type 0 where
  body : Bytes
  splits : input ≡ body ++ b'\n' ∷ r'.input
  lacks : Lacks b'\n' body
  whole : acc ++ body ≡ l ++ b'\r' ∷ []
  same : r' ≡ record r { input = r'.input }
  fits : Allows r.max_line (length l + 2)

read_line_from_step :
    (r : LineReader) (acc : Bytes) (c : ℕ) (input : Bytes) {v : Bytes × LineReader}
    → read_line_from r acc (c ∷ input) ≡ ok v
    → Allows r.max_line (length acc + 1)
      × (((c ≡ b'\n') × (finish_line r (acc ++ c ∷ []) input ≡ ok v))
          ⊎ ((c ≢ b'\n') × (read_line_from r (acc ++ c ∷ []) input ≡ ok v)))
unfolding read_line_from
read_line_from_step r acc c input h =
    elim (Bool-cases (over_limit r.max_line (length (acc ++ c ∷ [])))) [
      | inl over ↦ cc (rw over at h)
      | inr within ↦ (
        omega (
          arith,
          length-append acc (c ∷ []),
          over_limit-Allows r.max_line (length (acc ++ c ∷ [])) within,
        ),
        elim (Bool-cases (c == b'\n')) [
          | inl newline ↦ inl (ground arith, rw (within, newline) at h)
          | inr other ↦ inr (ground arith, rw (within, other) at h)
        ],
      )
    ]

Read-newline :
    (r : LineReader) (acc : Bytes) (c : ℕ) (input : Bytes) {l : Bytes} {r' : LineReader}
    → Allows r.max_line (length acc + 1)
    → c ≡ b'\n'
    → finish_line r (acc ++ c ∷ []) input ≡ ok (l, r')
    → Read r acc (c ∷ input) l r'
Read-newline r acc c input {l} {r'} fits e h =
    let (ends, same) = finish_line_sound r (acc ++ c ∷ []) input h in
    let all_but_last : acc ≡ l ++ b'\r' ∷ [] =
      append_cancel_right acc (l ++ b'\r' ∷ []) (b'\n' ∷ [])
        (ap (λ b. acc ++ b ∷ []) (sym e) ∙ ends ∙ sym (append_assoc l (b'\r' ∷ []) (b'\n' ∷ []))) in
    record {
      body = [];
      splits = ap₂ ◌∷◌ e (ap (λ (q : LineReader). q.input) (sym same));
      lacks = tt;
      whole = append-nil acc ∙ all_but_last;
      same = same ∙ ap (λ i. record r { input = i }) (ap (λ (q : LineReader). q.input) (sym same));
      fits = omega (arith, fits, ap length all_but_last, length-append l (b'\r' ∷ []));
    }

Read-cons :
    (r : LineReader) (acc : Bytes) (c : ℕ) (input : Bytes) {l : Bytes} {r' : LineReader}
    → c ≢ b'\n'
    → Read r (acc ++ c ∷ []) input l r'
    → Read r acc (c ∷ input) l r'
Read-cons r acc c input ne d = record {
  body = c ∷ d.body;
  splits = ap (◌∷◌ c) d.splits;
  lacks = (ne, d.lacks);
  whole = sym (append_assoc acc (c ∷ []) d.body) ∙ d.whole;
  same = d.same;
  fits = d.fits;
}

read_line_from_sound :
    (r : LineReader) (acc input : Bytes) {l : Bytes} {r' : LineReader}
    → read_line_from r acc input ≡ ok (l, r')
    → Read r acc input l r'
read_line_from_sound r acc [] h = unfold read_line_from in cc
read_line_from_sound r acc (c ∷ input) h =
    let (fits, cases) = read_line_from_step r acc c input h in
    elim cases [
      | inl (e, finished) ↦ Read-newline r acc c input fits e finished
      | inr (ne, later) ↦
          Read-cons r acc c input ne (read_line_from_sound r (acc ++ c ∷ []) input later)
    ]

-- The line `l` stands at the front of the input, followed by CRLF and by what `r'` still has.
pub record IsLine (r : LineReader) (l : Bytes) (r' : LineReader) : Type 0 where
  pub splits : r.input ≡ l ++ (b'\r' ∷ b'\n' ∷ r'.input)
  pub lacks : Lacks b'\n' l
  pub fits : Allows r.max_line (length l + 2)
  pub same : r' ≡ record r { input = r'.input }

Read-IsLine :
    (r : LineReader) {l : Bytes} {r' : LineReader} → Read r [] r.input l r' → IsLine r l r'
Read-IsLine r {l} {r'} d = record {
  splits =
      d.splits
      ∙ ap (λ b. b ++ b'\n' ∷ r'.input) d.whole
      ∙ append_assoc l (b'\r' ∷ []) (b'\n' ∷ r'.input);
  lacks = All-append_left (λ c. c ≢ b'\n') l (b'\r' ∷ []) (rw d.whole at d.lacks);
  fits = d.fits;
  same = d.same;
}

-- `ReadLine` returns the line `l` and leaves the reader as `r'` exactly when the input begins with
-- `l` and CRLF, `l` holds no newline, the limit on lines allows `l` with its CRLF, and `r'` is `r`
-- with the rest of the input.
pub read_line_iff :
    (r : LineReader) (l : Bytes) (r' : LineReader) → (read_line r ≡ ok (l, r')) ↔ IsLine r l r'
unfolding read_line
read_line_iff r l r' = (
  λ h. Read-IsLine r (read_line_from_sound r [] r.input h),
  λ d.
      ap (read_line_from r []) d.splits
      ∙ read_line_from-append r [] l r'.input d.lacks
          (let fits : Allows r.max_line (length l + 2) = d.fits in omega arith)
      ∙ ap (λ q. ok (l, q)) (sym d.same),
)
