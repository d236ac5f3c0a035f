-- ===== src/Httpserver/Middleware/Cors/Origins.antt =====
-- Which origins are allowed.
use wbsv.Common.{
  ◌≡◌, refl, ◌≢◌, ◌⊎◌, inl, inr, Bool, true, false, not, ◌||◌, List, [], ◌∷◌, Bool-cases, Bytes,
  any, bytes_eq,
}
use wbsv.GoText.{equal_fold, trim_space}
use wbsv.Httpserver.Middleware.Cors.{any_origin, is_empty, cors_allowed_origin}
use wbsv.Http1.Header.{is_empty}
use wbsv.Http1.Header.Field.{is_empty_of_ne_nil}

-- The entry of the list allows the origin.
abbrev pub accepts : Bytes → Bytes → Bool
accepts origin candidate =
    bytes_eq (trim_space candidate) any_origin || equal_fold (trim_space candidate) origin

-- For an origin that is given: some origin is allowed exactly when an entry of the list is the asterisk
-- or the origin, whatever the case of its letters; what is allowed is then the origin itself, or the
-- asterisk, and this only when the list has it and no credentials are allowed.
pub cors_allowed_origin_lem :
    (origin : Bytes) (allowed : List Bytes) (credentials : Bool)
    → origin ≢ []
    → (is_empty (cors_allowed_origin origin allowed credentials)
        ≡ not (any (accepts origin) allowed))
      × ((cors_allowed_origin origin allowed credentials ≡ [])
          ⊎ ((cors_allowed_origin origin allowed credentials ≡ origin)
              ⊎ ((cors_allowed_origin origin allowed credentials ≡ any_origin)
                  × (credentials ≡ false)
                  × (any (λ candidate. bytes_eq (trim_space candidate) any_origin) allowed
                      ≡ true))))
unfolding cors_allowed_origin
cors_allowed_origin_lem origin [] credentials ne = (refl, inl refl)
cors_allowed_origin_lem origin (candidate ∷ allowed) credentials ne =
    let (found, form) = cors_allowed_origin_lem origin allowed credentials ne in
    elim (Bool-cases (bytes_eq (trim_space candidate) any_origin)) [
      | inl star ↦ elim (Bool-cases credentials) [
        | inl secret ↦ rw (star, secret) (rw (is_empty_of_ne_nil origin ne) refl, inr (inl refl))
        | inr public ↦ rw (star, public) (refl, inr (inr (refl, refl, refl)))
      ]
      | inr other ↦ elim (Bool-cases (equal_fold (trim_space candidate) origin)) [
        | inl same ↦ rw (other, same) (rw (is_empty_of_ne_nil origin ne) refl, inr (inl refl))
        | inr differs ↦ rw (other, differs) (found, form)
      ]
    ]
