-- ===== src/GoText/Number.antt =====
-- `strconv.ParseInt` and `FormatInt` in base ten.
use mathlib.Core.List.{concat-ne-nil}
use wbsv.Common.{
  ℕ, zero, suc, ◌+◌, ◌-◌, ◌*◌, ◌/◌, ◌%◌, ◌≤◌, ◌<◌, ◌≡◌, refl, ap, ◌∙◌, ◌≢◌, inl, inr, Bool, true,
  false, Option, some, [], ◌∷◌, ◌++◌, arith, ltb, Bool-cases, Bytes, All, All-append, pos,
}
use wbsv.GoText.{
  is_digit, digits_from, parse_digits, max_int64, in_int64, parse_int, decimal, format_nat,
}

digits_from-append :
    (n : ℕ) (s : Bytes) {v : ℕ} (c : ℕ)
    → digits_from n s ≡ some v
    → digits_from n (s ++ c ∷ []) ≡ digits_from v (c ∷ [])
unfolding digits_from
digits_from-append n [] c h = ground arith
digits_from-append n (d ∷ s) c h = elim (Bool-cases (is_digit d)) [
  | inl digit ↦ rw digit (digits_from-append (n * 10 + (d - b'0')) s c (rw digit at h))
  | inr other ↦ cc (rw other at h)
]

digits_from-single : (v d : ℕ) → d < 10 → digits_from v ((b'0' + d) ∷ []) ≡ some (v * 10 + d)
unfolding digits_from
digits_from-single v d h = ground arith

digits_from-decimal : (f n : ℕ) → n < f → digits_from 0 (decimal f n) ≡ some n
unfolding decimal
digits_from-decimal zero n h = elim h [ ]
digits_from-decimal (suc f) n h = elim (Bool-cases (ltb n 10)) [
  | inl small ↦ rw small (digits_from-single 0 n (ground arith) ∙ ap some (omega arith))
  | inr large ↦ rw large (
      digits_from-append 0 (decimal f (n / 10)) (b'0' + n % 10)
        (digits_from-decimal f (n / 10) (ground arith))
      ∙ digits_from-single (n / 10) (n % 10) (omega arith)
      ∙ ap some (omega arith))
]

decimal-IsDigits : (f n : ℕ) → All (λ c. is_digit c ≡ true) (decimal f n)
unfolding decimal
decimal-IsDigits zero n = tt
decimal-IsDigits (suc f) n = elim (Bool-cases (ltb n 10)) [
  | inl small ↦ rw small (ground arith, tt)
  | inr large ↦ rw large (
      All-append (λ c. is_digit c ≡ true) (decimal f (n / 10)) _ (decimal-IsDigits f (n / 10))
        (ground arith, tt))
]

-- A printed number holds digits alone.
pub format_nat-IsDigits : (n : ℕ) → All (λ c. is_digit c ≡ true) (format_nat n)
unfolding format_nat
format_nat-IsDigits n = decimal-IsDigits (suc n) n

decimal-ne-nil : (f n : ℕ) → n < f → decimal f n ≢ []
unfolding decimal
decimal-ne-nil zero n h = elim h [ ]
decimal-ne-nil (suc f) n h = elim (Bool-cases (ltb n 10)) [
  | inl small ↦ rw small (λ e. cc)
  | inr large ↦ rw large (concat-ne-nil (b'0' + n % 10) (decimal f (n / 10)))
]

pub format_nat-ne-nil : (n : ℕ) → format_nat n ≢ []
unfolding format_nat
format_nat-ne-nil n = decimal-ne-nil (suc n) n (omega arith)

parse_digits_of_ne_nil : (s : Bytes) → s ≢ [] → parse_digits s ≡ digits_from 0 s
unfolding parse_digits
parse_digits_of_ne_nil [] h = absurd (h refl)
parse_digits_of_ne_nil (c ∷ s) h = refl

pub parse_digits-format_nat : (n : ℕ) → parse_digits (format_nat n) ≡ some n
parse_digits-format_nat n =
    parse_digits_of_ne_nil (format_nat n) (format_nat-ne-nil n)
    ∙ unfold format_nat in digits_from-decimal (suc n) n (omega arith)

parse_int_of_IsDigits :
    (s : Bytes)
    → All (λ c. is_digit c ≡ true) s
    → s ≢ []
    → parse_int s ≡ in_int64 false (parse_digits s)
unfolding parse_int
parse_int_of_IsDigits [] h ne = absurd (ne refl)
parse_int_of_IsDigits (c ∷ s) (d, h) ne = ground arith

-- A number that an int64 holds is read back as it was printed.
pub parse_int-format_nat : (n : ℕ) → n ≤ max_int64 → parse_int (format_nat n) ≡ some (pos n)
parse_int-format_nat n h =
    parse_int_of_IsDigits (format_nat n) (format_nat-IsDigits n) (format_nat-ne-nil n)
    ∙ rw (parse_digits-format_nat n) (ground arith)

in_int64-eq-pos : (b : Bool) (o : Option ℕ) {n : ℕ} → in_int64 b o ≡ some (pos n) → n ≤ max_int64
in_int64-eq-pos b o h = ground arith

-- What `ParseInt` returns fits an int64.
pub parse_int-le : (s : Bytes) {n : ℕ} → parse_int s ≡ some (pos n) → n ≤ max_int64
unfolding parse_int
parse_int-le [] h = cc
parse_int-le (c ∷ s) h = ground (
  arith,
  in_int64-eq-pos false (parse_digits s),
  in_int64-eq-pos true (parse_digits s),
  in_int64-eq-pos false (parse_digits (c ∷ s)),
)
