-- ===== src/Httpserver/Cookie/Asked.antt =====
-- The attributes of a cookie that its fields ask for (internal/httpserver/cookie.go).
use wbsv.Common.{
  ℕ, zero, suc, ◌≡◌, refl, ap, ◌∙◌, Bool, true, false, not, ◌||◌, List, [], ◌∷◌, ◌++◌, append-nil,
  arith, ◌==◌, if◌then◌else◌, Bytes, codes, ℤ, ltb_ℤ, pos, negsuc,
}
use wbsv.GoText.{format_nat, format_int}
use wbsv.Httpserver.Cookie.{cookie_parts, max_age_value, Cookie}
use wbsv.Http1.Header.{is_empty}

-- The parts that are there, as they stand between the semicolons.
abbrev pub chosen : List (Bool × Bytes) → List Bytes
chosen [] = []
chosen ((there, part) ∷ parts) = if there then (b' ' ∷ part) ∷ chosen parts else chosen parts

-- An attribute with a value, as it stands between two semicolons, when the value is not empty.
abbrev pub asked : Bytes → Bytes → List Bytes
asked label [] = []
asked label (c ∷ value) = (label ++ c ∷ value) ∷ []

-- An attribute without a value.
abbrev pub asked_flag : Bytes → Bool → List Bytes
asked_flag label true = label ∷ []
asked_flag label false = []

abbrev pub asked_expires : (ℕ → Bytes) → ℕ → List Bytes
asked_expires format_time zero = []
asked_expires format_time (suc t) = (codes " Expires=" ++ format_time (suc t)) ∷ []

-- No time for 0, and a cookie that is to go for a negative number.
abbrev pub asked_age : ℤ → List Bytes
asked_age (pos zero) = []
asked_age (pos (suc n)) = (codes " Max-Age=" ++ format_nat (suc n)) ∷ []
asked_age (negsuc n) = codes " Max-Age=0" ∷ []

-- The attributes that the fields of a cookie ask for.
abbrev pub attributes_of : (ℕ → Bytes) → Cookie → List Bytes
attributes_of format_time c =
    asked (codes " Path=") c.path
    ++ (asked (codes " Domain=") c.domain
        ++ (asked_expires format_time c.expires
            ++ (asked_age c.max_age
                ++ (asked_flag (codes " Secure") c.secure
                    ++ (asked_flag (codes " HttpOnly") c.http_only
                        ++ asked (codes " SameSite=") c.same_site)))))

chosen-value :
    (label value : Bytes) (parts : List (Bool × Bytes))
    → chosen ((not (is_empty value), label ++ value) ∷ parts)
      ≡ asked (b' ' ∷ label) value ++ chosen parts
chosen-value label [] parts = refl
chosen-value label (c ∷ value) parts = refl

chosen-flag :
    (label : Bytes) (there : Bool) (parts : List (Bool × Bytes))
    → chosen ((there, label) ∷ parts) ≡ asked_flag (b' ' ∷ label) there ++ chosen parts
chosen-flag label true parts = refl
chosen-flag label false parts = refl

chosen-expires :
    (format_time : ℕ → Bytes) (t : ℕ) (parts : List (Bool × Bytes))
    → chosen ((not (t == 0), codes "Expires=" ++ format_time t) ∷ parts)
      ≡ asked_expires format_time t ++ chosen parts
chosen-expires format_time zero parts = refl
chosen-expires format_time (suc t) parts = ground arith

chosen-age :
    (age : ℤ) (parts : List (Bool × Bytes))
    → chosen
        ((ltb_ℤ (pos 0) age || ltb_ℤ age (pos 0), codes "Max-Age=" ++ max_age_value age) ∷ parts)
      ≡ asked_age age ++ chosen parts
unfolding format_int
chosen-age (pos zero) parts = refl
chosen-age (pos (suc n)) parts = ground arith
chosen-age (negsuc n) parts = ground arith

pub chosen-attributes_of :
    (format_time : ℕ → Bytes) (c : Cookie)
    → chosen (cookie_parts format_time c) ≡ attributes_of format_time c
chosen-attributes_of format_time c =
    let site = (not (is_empty c.same_site), codes "SameSite=" ++ c.same_site) ∷ [] in
    let http_only = (c.http_only, codes "HttpOnly") ∷ site in
    let secure = (c.secure, codes "Secure") ∷ http_only in
    let age =
      (
        ltb_ℤ (pos 0) c.max_age || ltb_ℤ c.max_age (pos 0),
        codes "Max-Age=" ++ max_age_value c.max_age,
      )
      ∷ secure in
    let expires = (not (c.expires == 0), codes "Expires=" ++ format_time c.expires) ∷ age in
    let domain = (not (is_empty c.domain), codes "Domain=" ++ c.domain) ∷ expires in
    chosen-value (codes "Path=") c.path domain
    ∙ ap (◌++◌ (asked (codes " Path=") c.path)) (
        chosen-value (codes "Domain=") c.domain expires
        ∙ ap (◌++◌ (asked (codes " Domain=") c.domain)) (
            chosen-expires format_time c.expires age
            ∙ ap (◌++◌ (asked_expires format_time c.expires)) (
                chosen-age c.max_age secure
                ∙ ap (◌++◌ (asked_age c.max_age)) (
                    chosen-flag (codes "Secure") c.secure http_only
                    ∙ ap (◌++◌ (asked_flag (codes " Secure") c.secure)) (
                        chosen-flag (codes "HttpOnly") c.http_only site
                        ∙ ap (◌++◌ (asked_flag (codes " HttpOnly") c.http_only))
                            (chosen-value (codes "SameSite=") c.same_site [] ∙ append-nil _))))))
