-- ===== src/Httpserver/Middleware/Auth/Bearer.antt =====
-- Which requests carry a bearer token (internal/httpserver/auth.go).
use wbsv.Common.{
  ◌≡◌, refl, ◌↔◌, ◌⊎◌, inl, inr, true, false, Option, none, some, List, [], ◌∷◌, ◌++◌, arith,
  Bool-cases, Bytes, codes, Lacks, bytes_eq, bytes_eq_iff,
}
use wbsv.GoText.{cut, equal_fold, trim_space}
use wbsv.Httpserver.Middleware.Auth.{is_token, bearer_credentials, bearer_token_matches}
use wbsv.Http1.Header.{HeaderField}
use wbsv.GoText.Cut.{cut-append, cut_sound}

-- The value of a field, without the space around it, is a scheme that reads "Bearer", a space, and the
-- token, with any space around it.
abbrev pub IsBearer : Bytes → Bytes → Type 0
IsBearer token value =
    (scheme : Bytes) × (credentials : Bytes) × (trim_space value ≡ scheme ++ b' ' ∷ credentials)
    × Lacks b' ' scheme
    × (equal_fold scheme (codes "Bearer") ≡ true)
    × (trim_space credentials ≡ token)

-- A field with the name Authorization, in any case, gives the token.
abbrev pub HasBearer : Bytes → List HeaderField → Type 0
HasBearer token [] = ⊥
HasBearer token (header ∷ headers) =
    ((equal_fold header.name (codes "Authorization") ≡ true) × IsBearer token header.value)
    ⊎ HasBearer token headers

bearer_credentials_sound :
    (token value : Bytes)
    → is_token token (bearer_credentials (cut b' ' (trim_space value))) ≡ true
    → IsBearer token value
unfolding bearer_credentials
bearer_credentials_sound token value h = found (cut b' ' (trim_space value)) refl h
  where
    right :
        (scheme rest : Bytes)
        → equal_fold scheme (codes "Bearer") ≡ true
        → is_token token (bearer_credentials (some (scheme, rest))) ≡ true
        → bytes_eq (trim_space rest) token ≡ true
    right scheme rest fits h = ground (arith, fits, h)

    wrong :
        (scheme rest : Bytes)
        → equal_fold scheme (codes "Bearer") ≡ false
        → is_token token (bearer_credentials (some (scheme, rest))) ≡ true
        → ⊥
    wrong scheme rest other h = ground (arith, other, h)

    found :
        (o : Option (Bytes × Bytes))
        → cut b' ' (trim_space value) ≡ o
        → is_token token (bearer_credentials o) ≡ true
        → IsBearer token value
    found none is h = cc
    found (some (scheme, rest)) is h =
        let (whole, lacks) = cut_sound b' ' (trim_space value) scheme rest is in
        elim (Bool-cases (equal_fold scheme (codes "Bearer"))) [
          | inl fits ↦ (
            scheme,
            rest,
            whole,
            lacks,
            fits,
            (bytes_eq_iff (trim_space rest) token).0 (right scheme rest fits h),
          )
          | inr other ↦ absurd (wrong scheme rest other h)
        ]

bearer_credentials_complete :
    (token value : Bytes)
    → IsBearer token value
    → is_token token (bearer_credentials (cut b' ' (trim_space value))) ≡ true
unfolding bearer_credentials
bearer_credentials_complete token value (scheme, credentials, whole, lacks, fits, same) =
    rw (whole, cut-append b' ' scheme credentials lacks, fits)
      ((bytes_eq_iff (trim_space credentials) token).1 same)

bearer_token_matches_sound :
    (headers : List HeaderField) (token : Bytes)
    → bearer_token_matches headers token ≡ true
    → HasBearer token headers
unfolding bearer_token_matches
bearer_token_matches_sound [] token h = cc
bearer_token_matches_sound (header ∷ headers) token h =
    elim (Bool-cases (equal_fold header.name (codes "Authorization"))) [
      | inr other ↦ inr (bearer_token_matches_sound headers token (ground (arith, other, h)))
      | inl named ↦
          elim (Bool-cases
            (is_token token (bearer_credentials (cut b' ' (trim_space header.value))))) [
              | inl fits ↦ inl (named, bearer_credentials_sound token header.value fits)
              | inr wrong ↦
                  inr (bearer_token_matches_sound headers token (ground (arith, named, wrong, h)))
            ]
    ]

bearer_token_matches_complete :
    (headers : List HeaderField) (token : Bytes)
    → HasBearer token headers
    → bearer_token_matches headers token ≡ true
unfolding bearer_token_matches
bearer_token_matches_complete [] token found = elim found [ ]
bearer_token_matches_complete (header ∷ headers) token (inl (named, bearer)) =
    rw (named, bearer_credentials_complete token header.value bearer) refl
bearer_token_matches_complete (header ∷ headers) token (inr later) =
    ground (arith, bearer_token_matches_complete headers token later)

-- `bearerTokenMatches` accepts exactly the requests that carry the token.
pub bearer_token_matches_iff :
    (headers : List HeaderField) (token : Bytes)
    → (bearer_token_matches headers token ≡ true) ↔ HasBearer token headers
bearer_token_matches_iff headers token =
    (bearer_token_matches_sound headers token, bearer_token_matches_complete headers token)
