-- ===== src/Http1/Response/Hex.antt =====
-- The sizes of chunks, in hexadecimal (internal/http1/response.go).
use wbsv.Common.{
  ℕ, zero, suc, ◌+◌, ◌-◌, ◌*◌, ◌/◌, ◌%◌, ◌<◌, ◌≡◌, ap, ◌∙◌, ◌≢◌, inl, inr, ◌&&◌, Option, none, some,
  [], ◌∷◌, ◌++◌, arith, ltb, leb, if◌then◌else◌, Bool-cases, Option-cases, Bytes,
}
use wbsv.Http1.Response.{hex_digit, hexadecimal, format_hex}
use mathlib.Core.List.{concat-ne-nil}

-- The value of a lower-case hexadecimal digit.
abbrev pub hex_value : ℕ → Option ℕ
hex_value c =
    if leb b'0' c && leb c b'9'
    then some (c - b'0')
    else if leb b'a' c && leb c b'f'
    then some (c - b'a' + 10)
    else none

pub hex_from : ℕ → Bytes → Option ℕ
hex_from n [] = some n
hex_from n (c ∷ s) = elim (hex_value c) [ none ↦ none | some d ↦ hex_from (n * 16 + d) s ]

hex_value-hex_digit : (d : ℕ) → d < 16 → hex_value (hex_digit d) ≡ some d
hex_value-hex_digit d h = ground arith

hex_from-single : (v d : ℕ) → d < 16 → hex_from v (hex_digit d ∷ []) ≡ some (v * 16 + d)
unfolding hex_from
hex_from-single v d h = rw (hex_value-hex_digit d h, hex_from)

hex_from-append :
    (n : ℕ) (s : Bytes) {v : ℕ} (c : ℕ)
    → hex_from n s ≡ some v
    → hex_from n (s ++ c ∷ []) ≡ hex_from v (c ∷ [])
unfolding hex_from
hex_from-append n [] c h = ground arith
hex_from-append n (d ∷ s) c h = elim (Option-cases (hex_value d)) [
  | inl bad ↦ cc (rw (bad, hex_from) at h)
  | inr (k, good) ↦
      rw (good, hex_from) (hex_from-append (n * 16 + k) s c (rw (good, hex_from) at h))
]

hex_from-hexadecimal : (f n : ℕ) → n < f → hex_from 0 (hexadecimal f n) ≡ some n
unfolding hexadecimal
hex_from-hexadecimal zero n h = elim h [ ]
hex_from-hexadecimal (suc f) n h = elim (Bool-cases (ltb n 16)) [
  | inl small ↦ rw small (hex_from-single 0 n (ground arith) ∙ ap some (omega arith))
  | inr large ↦ rw large (
      hex_from-append 0 (hexadecimal f (n / 16)) (hex_digit (n % 16))
        (hex_from-hexadecimal f (n / 16) (ground arith))
      ∙ hex_from-single (n / 16) (n % 16) (omega arith)
      ∙ ap some (omega arith))
]

-- The size of a chunk is read back from its digits.
pub hex_from-format_hex : (n : ℕ) → hex_from 0 (format_hex n) ≡ some n
unfolding format_hex
hex_from-format_hex n = hex_from-hexadecimal (suc n) n (omega arith)

hexadecimal-ne-nil : (f n : ℕ) → hexadecimal (suc f) n ≢ []
unfolding hexadecimal
hexadecimal-ne-nil f n = elim (Bool-cases (ltb n 16)) [
  | inl small ↦ rw small (λ e. cc)
  | inr large ↦ rw large (concat-ne-nil (hex_digit (n % 16)) (hexadecimal f (n / 16)))
]

pub format_hex-ne-nil : (n : ℕ) → format_hex n ≢ []
unfolding format_hex
format_hex-ne-nil n = hexadecimal-ne-nil n n
