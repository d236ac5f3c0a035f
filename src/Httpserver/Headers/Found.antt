-- ===== src/Httpserver/Headers/Found.antt =====
-- What the searches of a header list find (internal/httpserver/cors.go, compression.go, websocket.go and
-- internal/http1/header.go).
use wbsv.Common.{
  ◌≡◌, refl, sym, ◌↔◌, ◌⊎◌, inl, inr, Bool, true, false, ◌&&◌, List, [], ◌∷◌, arith, Bool-cases,
  Bytes, any,
}
use wbsv.Httpserver.Headers.{header_value_fold}
use wbsv.Http1.Header.{blanks, value_has_token, HeaderField, header_has_token}
use wbsv.GoText.{trim, equal_fold, split}

-- An element of the list has the property.
abbrev pub HasOne : {A : Type 0} → (A → Type 0) → List A → Type 0
HasOne P [] = ⊥
HasOne P (x ∷ xs) = P x ⊎ HasOne P xs

pub any_iff :
    {A : Type 0} (test : A → Bool) (P : A → Type 0)
    → ((x : A) → (test x ≡ true) ↔ P x)
    → (xs : List A) → (any test xs ≡ true) ↔ HasOne P xs
any_iff test P same [] = (λ h. cc, λ found. absurd found)
any_iff test P same (x ∷ xs) = (found (any_iff test P same xs).0, holds (any_iff test P same xs).1)
  where
    found : (any test xs ≡ true → HasOne P xs) → any test (x ∷ xs) ≡ true → P x ⊎ HasOne P xs
    found rest h = elim (Bool-cases (test x)) [
      | inl here ↦ inl ((same x).0 here)
      | inr other ↦ inr (rest (ground (arith, other, h)))
    ]

    holds : (HasOne P xs → any test xs ≡ true) → P x ⊎ HasOne P xs → any test (x ∷ xs) ≡ true
    holds rest (inl here) = rw ((same x).1 here) refl
    holds rest (inr later) = ground (arith, rest later)

-- A part of the value between commas reads as the token.
abbrev pub HasToken : Bytes → HeaderField → Type 0
HasToken token field =
    HasOne (λ (part : Bytes). equal_fold (trim blanks part) token ≡ true) (split b',' field.value)

pub &&_iff : (a b : Bool) → (a && b ≡ true) ↔ ((a ≡ true) × (b ≡ true))
&&_iff a b = ground arith

pub header_has_token_iff :
    (headers : List HeaderField) (name token : Bytes)
    → (header_has_token headers name token ≡ true)
      ↔ HasOne
          (λ (field : HeaderField). (equal_fold field.name name ≡ true) × HasToken token field)
          headers
unfolding header_has_token
header_has_token_iff headers name token = any_iff _ _ one headers
  where
    one :
        (field : HeaderField)
        → (equal_fold field.name name && value_has_token token field.value ≡ true)
          ↔ ((equal_fold field.name name ≡ true) × HasToken token field)
    one field =
        let parts =
          any_iff (λ (part : Bytes). equal_fold (trim blanks part) token) _
            (λ part. (λ h. h, λ h. h)) (split b',' field.value) in
        let both = &&_iff (equal_fold field.name name) (value_has_token token field.value) in
        (λ h. ((both.0 h).0, parts.0 (both.0 h).1), λ h. both.1 (h.0, parts.1 h.1))

-- The first field of the name has the value, or there is none and the value is empty.
abbrev pub FirstValue : Bytes → List HeaderField → Bytes → Type 0
FirstValue name [] value = value ≡ []
FirstValue name (field ∷ fields) value =
    ((equal_fold field.name name ≡ true) × (field.value ≡ value))
    ⊎ ((equal_fold field.name name ≡ false) × FirstValue name fields value)

pub header_value_fold_iff :
    (headers : List HeaderField) (name value : Bytes)
    → (header_value_fold headers name ≡ value) ↔ FirstValue name headers value
unfolding header_value_fold
header_value_fold_iff [] name value = (λ h. sym h, λ h. sym h)
header_value_fold_iff (field ∷ fields) name value = (
  found (header_value_fold_iff fields name value).0,
  holds (header_value_fold_iff fields name value).1,
)
  where
    found :
        (header_value_fold fields name ≡ value → FirstValue name fields value)
        → header_value_fold (field ∷ fields) name ≡ value
        → FirstValue name (field ∷ fields) value
    found rest h = elim (Bool-cases (equal_fold field.name name)) [
      | inl named ↦ inl (named, ground (arith, named, h))
      | inr other ↦ inr (other, rest (ground (arith, other, h)))
    ]

    holds :
        (FirstValue name fields value → header_value_fold fields name ≡ value)
        → FirstValue name (field ∷ fields) value
        → header_value_fold (field ∷ fields) name ≡ value
    holds rest (inl (named, same)) = rw (named, same) refl
    holds rest (inr (other, later)) = rw (other, rest later) refl
