-- ===== src/GoText/Trim.antt =====
-- `strings.Trim` for an ASCII set of bytes.
use wbsv.Common.{
  ℕ, ◌≡◌, refl, ap, ◌∙◌, inl, inr, Bool, true, false, [], ◌∷◌, ◌++◌, Bool-cases, Bytes, All,
}
use wbsv.GoText.{one_of, trim_left, keep_last, trim_right, trim}

-- The text does not begin with a byte of the set.
abbrev pub StartsClean : Bytes → Bytes → Type 0
StartsClean set [] = Unit
StartsClean set (c ∷ s) = one_of set c ≡ false

-- The text does not end with a byte of the set.
abbrev pub EndsClean : Bytes → Bytes → Type 0
EndsClean set [] = Unit
EndsClean set (c ∷ []) = one_of set c ≡ false
EndsClean set (c ∷ d ∷ s) = EndsClean set (d ∷ s)

abbrev pub IsTrimmed : Bytes → Bytes → Type 0
IsTrimmed set s = StartsClean set s × EndsClean set s

trim_left-StartsClean : (set s : Bytes) → StartsClean set (trim_left set s)
unfolding trim_left
trim_left-StartsClean set [] = tt
trim_left-StartsClean set (c ∷ s) = elim (Bool-cases (one_of set c)) [
  | inl drops ↦ rw drops (trim_left-StartsClean set s)
  | inr keeps ↦ rw keeps keeps
]

keep_last-EndsClean :
    (set : Bytes) (c : ℕ) (s : Bytes)
    → EndsClean set s
    → EndsClean set (keep_last (one_of set c) c s)
keep_last-EndsClean set c [] h = elim (Bool-cases (one_of set c)) [
  | inl drops ↦ rw drops tt
  | inr keeps ↦ rw keeps keeps
]
keep_last-EndsClean set c (d ∷ s) h = h

trim_right-EndsClean : (set s : Bytes) → EndsClean set (trim_right set s)
unfolding trim_right
trim_right-EndsClean set [] = tt
trim_right-EndsClean set (c ∷ s) =
    keep_last-EndsClean set c (trim_right set s) (trim_right-EndsClean set s)

keep_last-StartsClean :
    (set : Bytes) (c : ℕ) (s : Bytes)
    → one_of set c ≡ false
    → StartsClean set (keep_last (one_of set c) c s)
keep_last-StartsClean set c [] h = rw h h
keep_last-StartsClean set c (d ∷ s) h = h

trim_right-StartsClean : (set s : Bytes) → StartsClean set s → StartsClean set (trim_right set s)
unfolding trim_right
trim_right-StartsClean set [] h = tt
trim_right-StartsClean set (c ∷ s) h = keep_last-StartsClean set c (trim_right set s) h

-- A trimmed text neither begins nor ends with a byte of the set.
pub trim-IsTrimmed : (set s : Bytes) → IsTrimmed set (trim set s)
unfolding trim
trim-IsTrimmed set s = (
  trim_right-StartsClean set (trim_left set s) (trim_left-StartsClean set s),
  trim_right-EndsClean set (trim_left set s),
)

pub trim_left_of_StartsClean : (set s : Bytes) → StartsClean set s → trim_left set s ≡ s
unfolding trim_left
trim_left_of_StartsClean set [] h = refl
trim_left_of_StartsClean set (c ∷ s) h = rw h

pub trim_right_of_EndsClean : (set s : Bytes) → EndsClean set s → trim_right set s ≡ s
unfolding trim_right
trim_right_of_EndsClean set [] h = refl
trim_right_of_EndsClean set (c ∷ []) h = rw h
trim_right_of_EndsClean set (c ∷ d ∷ s) h = rw (trim_right_of_EndsClean set (d ∷ s) h)

-- Trimming changes nothing in a text that is trimmed.
pub trim_of_IsTrimmed : (set s : Bytes) → IsTrimmed set s → trim set s ≡ s
unfolding trim
trim_of_IsTrimmed set s (h, k) =
    ap (trim_right set) (trim_left_of_StartsClean set s h) ∙ trim_right_of_EndsClean set s k

module _ (P : ℕ → Type 0) (set : Bytes) where
  trim_left-All : (s : Bytes) → All P s → All P (trim_left set s)
  unfolding trim_left
  trim_left-All [] h = tt
  trim_left-All (c ∷ s) (p, h) = elim (Bool-cases (one_of set c)) [
    | inl drops ↦ rw drops (trim_left-All s h)
    | inr keeps ↦ rw keeps (p, h)
  ]

  keep_last-All : (b : Bool) (c : ℕ) (s : Bytes) → P c → All P s → All P (keep_last b c s)
  keep_last-All true c [] p h = tt
  keep_last-All false c [] p h = (p, tt)
  keep_last-All b c (d ∷ s) p h = (p, h)

  trim_right-All : (s : Bytes) → All P s → All P (trim_right set s)
  unfolding trim_right
  trim_right-All [] h = tt
  trim_right-All (c ∷ s) (p, h) =
      keep_last-All (one_of set c) c (trim_right set s) p (trim_right-All s h)

  -- What holds of every byte holds of the bytes that are left.
  pub trim-All : (s : Bytes) → All P s → All P (trim set s)
  unfolding trim
  trim-All s h = trim_right-All (trim_left set s) (trim_left-All s h)

pub EndsClean-append :
    (set s : Bytes) (c : ℕ) (t : Bytes) → EndsClean set (c ∷ t) → EndsClean set (s ++ c ∷ t)
EndsClean-append set [] c t h = h
EndsClean-append set (d ∷ []) c t h = h
EndsClean-append set (d ∷ e ∷ s) c t h = EndsClean-append set (e ∷ s) c t h

pub EndsClean-cons :
    (set : Bytes) (c : ℕ) (t : Bytes)
    → one_of set c ≡ false
    → EndsClean set t
    → EndsClean set (c ∷ t)
EndsClean-cons set c [] h k = h
EndsClean-cons set c (d ∷ t) h k = k
