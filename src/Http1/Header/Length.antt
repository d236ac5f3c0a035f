-- ===== src/Http1/Header/Length.antt =====
-- `ContentLength`: all Content-Length fields agree.
use wbsv.Common.{
  ℕ, ◌≤◌, ◌≡◌, refl, sym, ap, ◌∙◌, ◌≢◌, ◌↔◌, ◌⊎◌, inl, inr, Bool, true, false, not, ◌&&◌, ◌||◌,
  Option, none, some, List, [], ◌∷◌, arith, Bool-cases, Bytes, codes, All, any, ℤ, pos, negsuc,
}
use wbsv.GoText.{has_prefix, equal_fold, parse_int, max_int64, is_digit, format_nat}
use wbsv.GoText.Number.{format_nat-IsDigits, format_nat-ne-nil, parse_int-format_nat, parse_int-le}
use wbsv.Http1.Errors.{
  invalid_content_length, conflicting_header, ok, ◌>>=◌, ◌>>◌, fail_if, fail_if-eq-ok, >>=-eq-ok,
}
use wbsv.Http1.Header.{
  HeaderField, is_empty, parsed_length, parse_content_length_value, eq_ℤ, content_length_from,
  content_length,
}

abbrev pub is_length : HeaderField → Bool
is_length f = equal_fold f.name (codes "Content-Length")

-- Every Content-Length field holds the number `n`.
abbrev pub AgreeOn : ℕ → List HeaderField → Type 0
AgreeOn n = All (λ f. is_length f ≡ true → parse_content_length_value f.value ≡ ok (pos n))

eq_ℤ-eq-true : (a b : ℤ) → eq_ℤ a b ≡ true → a ≡ b
eq_ℤ-eq-true a b h = ground arith

parsed_length-eq-ok :
    (o : Option ℤ) (n : ℤ) → parsed_length o ≡ ok n → (m : ℕ) × (n ≡ pos m) × (o ≡ some (pos m))
unfolding parsed_length
parsed_length-eq-ok none n h = cc
parsed_length-eq-ok (some (pos m)) n h = (m, ground arith, refl)
parsed_length-eq-ok (some (negsuc m)) n h = absurd (ground arith)

-- A length that was parsed is not negative and fits an int64.
pub parse_content_length_value_bounds :
    (value : Bytes) (n : ℤ)
    → parse_content_length_value value ≡ ok n
    → (m : ℕ) × (n ≡ pos m) × (m ≤ max_int64)
unfolding parse_content_length_value
parse_content_length_value_bounds value n h =
    let (_, h1) = fail_if-eq-ok (is_empty value) invalid_content_length _ h in
    let (_, h2) =
      fail_if-eq-ok (has_prefix value (b'+' ∷ []) || has_prefix value (b'-' ∷ []))
        invalid_content_length _ h1 in
    let (m, e, k) = parsed_length-eq-ok (parse_int value) n h2 in (m, e, parse_int-le value k)

eq_ℤ_refl : (n : ℕ) → eq_ℤ (pos n) (pos n) ≡ true
eq_ℤ_refl n = ground arith

-- One field that is no Content-Length is passed over.
content_length_from_other :
    (len : ℤ) (found : Bool) (f : HeaderField) (fs : List HeaderField)
    → is_length f ≡ false
    → content_length_from len found (f ∷ fs) ≡ content_length_from len found fs
unfolding content_length_from
content_length_from_other len found f fs h = rw (h, content_length_from)

content_length_from_length :
    (len : ℤ) (found : Bool) (f : HeaderField) (fs : List HeaderField)
    → is_length f ≡ true
    → content_length_from len found (f ∷ fs) ≡ (
        parse_content_length_value f.value >>= λ current.
        fail_if (found && not (eq_ℤ current len)) conflicting_header
        >> content_length_from current true fs)
unfolding content_length_from
content_length_from_length len found f fs h = rw (h, content_length_from)

-- A first Content-Length field that the loop accepts.
content_length_from_step :
    (len : ℤ) (found : Bool) (f : HeaderField) (fs : List HeaderField) {v : ℤ × Bool}
    → is_length f ≡ true
    → content_length_from len found (f ∷ fs) ≡ ok v
    → (m : ℕ) × (parse_content_length_value f.value ≡ ok (pos m))
      × ((found && not (eq_ℤ (pos m) len)) ≡ false)
      × (content_length_from (pos m) true fs ≡ ok v)
content_length_from_step len found f fs h k =
    let (current, e, k1) =
      >>=-eq-ok (parse_content_length_value f.value) _
        (sym (content_length_from_length len found f fs h) ∙ k) in
    let (agrees, k2) = fail_if-eq-ok (found && not (eq_ℤ current len)) conflicting_header _ k1 in
    let (m, same, _) = parse_content_length_value_bounds f.value current e in
    (m, rw same at e, rw same at agrees, rw same at k2)

module _ (n : ℕ) where
  found_sound :
      (fs : List HeaderField) {v : ℤ × Bool}
      → content_length_from (pos n) true fs ≡ ok v
      → AgreeOn n fs × (v ≡ (pos n, true))
  found_sound [] h = unfold content_length_from in (tt, ground arith)
  found_sound (f ∷ fs) h = elim (Bool-cases (is_length f)) [
    | inr other ↦
        let (agree, e) = found_sound fs (sym (content_length_from_other _ _ f fs other) ∙ h) in
        (((λ k. cc), agree), e)
    | inl this ↦
        let (m, parsed, agrees, k) = content_length_from_step (pos n) true f fs this h in
        let same : m ≡ n = ground (arith, eq_ℤ-eq-true (pos m) (pos n)) in
        let (agree, e) = found_sound fs (rw same at k) in (((λ _. rw same at parsed), agree), e)
  ]

  found_complete :
      (fs : List HeaderField)
      → AgreeOn n fs
      → content_length_from (pos n) true fs ≡ ok (pos n, true)
  found_complete [] h = unfold content_length_from in refl
  found_complete (f ∷ fs) (h, agree) = elim (Bool-cases (is_length f)) [
    | inr other ↦ content_length_from_other _ _ f fs other ∙ found_complete fs agree
    | inl this ↦
        content_length_from_length _ _ f fs this
        ∙ rw (h this, eq_ℤ_refl n) (found_complete fs agree)
  ]

absent_sound :
    (n : ℕ) (len : ℤ) (fs : List HeaderField)
    → content_length_from len false fs ≡ ok (pos n, true)
    → (any is_length fs ≡ true) × AgreeOn n fs
absent_sound n len [] h = unfold content_length_from in cc
absent_sound n len (f ∷ fs) h = elim (Bool-cases (is_length f)) [
  | inr other ↦
      let (some_length, agree) =
        absent_sound n len fs (sym (content_length_from_other _ _ f fs other) ∙ h) in
      (rw other some_length, ((λ k. cc), agree))
  | inl this ↦ from_step this (content_length_from_step len false f fs this h)
]
  where
    from_step :
        is_length f ≡ true
        → ((m : ℕ) × (parse_content_length_value f.value ≡ ok (pos m))
            × ((false && not (eq_ℤ (pos m) len)) ≡ false)
            × (content_length_from (pos m) true fs ≡ ok (pos n, true)))
        → (any is_length (f ∷ fs) ≡ true) × AgreeOn n (f ∷ fs)
    from_step this (m, parsed, _, k) =
        let (agree, e) = found_sound m fs k in
        let same : m ≡ n = ground arith in
        (rw this refl, ((λ _. rw same at parsed), rw same at agree))

absent_complete :
    (n : ℕ) (len : ℤ) (fs : List HeaderField)
    → any is_length fs ≡ true
    → AgreeOn n fs
    → content_length_from len false fs ≡ ok (pos n, true)
absent_complete n len [] h _ = cc
absent_complete n len (f ∷ fs) h (k, agree) = elim (Bool-cases (is_length f)) [
  | inr other ↦
      content_length_from_other _ _ f fs other ∙ absent_complete n len fs (rw other at h) agree
  | inl this ↦ content_length_from_length _ _ f fs this ∙ rw (k this) (found_complete n fs agree)
]

-- `ContentLength` reports the length `n` exactly when there is a Content-Length field and every
-- such field holds the number `n`.
pub content_length_iff :
    (fs : List HeaderField) (n : ℕ)
    → (content_length fs ≡ ok (pos n, true)) ↔ ((any is_length fs ≡ true) × AgreeOn n fs)
unfolding content_length
content_length_iff fs n = (absent_sound n (pos 0) fs, λ h. absent_complete n (pos 0) fs h.0 h.1)

missing_iff :
    (len : ℤ) (fs : List HeaderField)
    → (content_length_from len false fs ≡ ok (len, false)) ↔ (any is_length fs ≡ false)
missing_iff len [] = unfold content_length_from in (λ _. refl, λ _. refl)
missing_iff len (f ∷ fs) = elim (Bool-cases (is_length f)) [
  | inr other ↦ rw (content_length_from_other len false f fs other, other) (missing_iff len fs)
  | inl this ↦ (
    λ h.
        let (m, _, _, k) = content_length_from_step len false f fs this h in
        let (_, e) = found_sound m fs k in absurd (apart (ap (λ (v : ℤ × Bool). v.1) e)),
    λ h. cc (rw this at h),
  )
]
  where
    apart : false ≡ true → ⊥
    apart e = cc

-- It reports that there is none exactly when no field is a Content-Length.
pub content_length_missing_iff :
    (fs : List HeaderField) → (content_length fs ≡ ok (pos 0, false)) ↔ (any is_length fs ≡ false)
unfolding content_length
content_length_missing_iff = missing_iff (pos 0)

-- A Content-Length that was printed from a number is parsed as that number.
pub parse_content_length_value-format_nat :
    (n : ℕ) → n ≤ max_int64 → parse_content_length_value (format_nat n) ≡ ok (pos n)
unfolding parse_content_length_value parsed_length has_prefix
parse_content_length_value-format_nat n h =
    unsigned (format_nat n) (format_nat-IsDigits n) (format_nat-ne-nil n) (parse_int-format_nat n h)
  where
    unsigned :
        (s : Bytes)
        → All (λ c. is_digit c ≡ true) s
        → s ≢ []
        → parse_int s ≡ some (pos n)
        → parse_content_length_value s ≡ ok (pos n)
    unsigned [] d ne e = absurd (ne refl)
    unsigned (c ∷ s) (d, _) ne e = rw e (ground arith)

cases_from :
    (len : ℤ) (fs : List HeaderField) (v : ℤ × Bool)
    → content_length_from len false fs ≡ ok v
    → (v ≡ (len, false)) ⊎ ((n : ℕ) × (v ≡ (pos n, true)) × (n ≤ max_int64))
cases_from len [] v h = unfold content_length_from in inl (ground arith)
cases_from len (f ∷ fs) v h = elim (Bool-cases (is_length f)) [
  | inr other ↦ cases_from len fs v (sym (content_length_from_other len false f fs other) ∙ h)
  | inl this ↦
      let (m, parsed, _, k) = content_length_from_step len false f fs this h in
      let (_, e) = found_sound m fs k in
      let (m', same, small) = parse_content_length_value_bounds f.value (pos m) parsed in
      inr (m, e, ground arith)
]

-- A result of `ContentLength` is either none or a number that an int64 holds.
pub content_length_cases :
    (fs : List HeaderField) (v : ℤ × Bool)
    → content_length fs ≡ ok v
    → (v ≡ (pos 0, false)) ⊎ ((n : ℕ) × (v ≡ (pos n, true)) × (n ≤ max_int64))
unfolding content_length
content_length_cases = cases_from (pos 0)
