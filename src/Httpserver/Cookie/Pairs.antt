-- ===== src/Httpserver/Cookie/Pairs.antt =====
-- The Cookie header that a client sends, read back.
use wbsv.Common.{
  ℕ, ◌≡◌, refl, ◌≢◌, true, ◌||◌, some, List, [], ◌∷◌, ◌++◌, append-nil, append_assoc, arith,
  guard-eq-some, Bytes, codes, All, All-append, All-map, Lacks,
}
use wbsv.Httpserver.Cookie.{
  invalid_cookie_value, invalid_cookie_name, cookie_value_breaks, cookie_name_breaks, blanks,
  cookie_of, trim, plain_cookie, request_cookies, cookies_of_parts, equal_fold, set_cookie_value,
  Cookie,
}
use wbsv.GoText.{trim_right, split, cut, trim_left, equal_fold, join_text, trim}
use wbsv.Httpserver.Cookie.Attributes.{pair_clean, Avoids-Lacks}
use wbsv.Http1.Header.Field.{is_empty_of_ne_nil, is_empty-eq-false, Avoids}
use mathlib.Core.List.{map}
use wbsv.GoText.Trim.{EndsClean-cons, EndsClean-append, trim_of_IsTrimmed, IsTrimmed, EndsClean}
use wbsv.Http1.Header.{blanks}
use wbsv.GoText.Cut.{split-append, cut-append, split_of_Lacks, contains_any-eq-false}

abbrev pub pair_text : Cookie → Bytes
pair_text c = c.name ++ b'=' ∷ c.value

-- The value of a Cookie header for these cookies.
abbrev pub cookie_header : List Cookie → Bytes
cookie_header cookies = join_text (codes "; ") (map pair_text cookies)

-- A client can send the cookie back as it is.
pub record IsSent (c : Cookie) : Type 0 where
  pub name_ne_nil : c.name ≢ []
  pub name_avoids : Avoids cookie_name_breaks c.name
  pub value_avoids : Avoids cookie_value_breaks c.value
  pub value_ends : EndsClean blanks c.value

pair_text-IsTrimmed :
    (name value : Bytes)
    → name ≢ []
    → Avoids cookie_name_breaks name
    → EndsClean blanks value
    → IsTrimmed blanks (name ++ b'=' ∷ value)
pair_text-IsTrimmed [] value ne h k = absurd (ne refl)
pair_text-IsTrimmed (d ∷ name) value ne (p, h) k = (
  ground (arith, p),
  EndsClean-append blanks (d ∷ name) b'=' value (EndsClean-cons blanks b'=' value refl k),
)

pair_text-Lacks : (c : Cookie) → IsSent c → Lacks b';' (pair_text c)
pair_text-Lacks c s =
    Avoids-Lacks (pair_text c) (pair_clean c.name c.value s.name_avoids s.value_avoids)

trim_blank : (s : Bytes) → trim blanks (b' ' ∷ s) ≡ trim blanks s
unfolding trim trim_left
trim_blank s = refl

cookie_of-pair :
    (c : Cookie) → IsSent c → cookie_of (cut b'=' (pair_text c)) ≡ plain_cookie c.name c.value ∷ []
unfolding cookie_of
cookie_of-pair c s =
    let name = (contains_any-eq-false c.name cookie_name_breaks).1 s.name_avoids in
    let value = (contains_any-eq-false c.value cookie_value_breaks).1 s.value_avoids in
    rw
      (
        cut-append b'=' c.name c.value (All-map (λ c h. ground arith) c.name s.name_avoids),
        is_empty_of_ne_nil c.name s.name_ne_nil,
        name,
        value,
      )
      refl

-- A part as it stands, or behind a blank.
part_read :
    (c : Cookie)
    → IsSent c
    → cookie_of (cut b'=' (trim blanks (pair_text c))) ≡ plain_cookie c.name c.value ∷ []
part_read c s =
    rw
      (trim_of_IsTrimmed blanks (pair_text c)
        (pair_text-IsTrimmed c.name c.value s.name_ne_nil s.name_avoids s.value_ends))
      (cookie_of-pair c s)

abbrev pub plain : Cookie → Cookie
plain c = plain_cookie c.name c.value

-- The parts of the header behind `front`, which is the first part so far.
parts_read :
    (front : Bytes) (c : Cookie) (cookies : List Cookie)
    → IsSent c
    → All IsSent cookies
    → Lacks b';' front
    → trim blanks (front ++ pair_text c) ≡ trim blanks (pair_text c)
    → cookies_of_parts (split b';' (front ++ cookie_header (c ∷ cookies)))
      ≡ plain c ∷ map plain cookies
unfolding cookies_of_parts join_text
parts_read front c [] s ss h e =
    rw
      (
        split_of_Lacks b';' (front ++ pair_text c)
            (All-append (λ x. x ≢ b';') front (pair_text c) h (pair_text-Lacks c s)),
        e,
        part_read c s,
      )
      refl
parts_read front c (d ∷ cookies) s (sd, ss) h e =
    let first = front ++ pair_text c in
    rw
      (
        ← append_assoc front (pair_text c) (codes "; " ++ cookie_header (d ∷ cookies)),
        split-append b';' first (b' ' ∷ cookie_header (d ∷ cookies))
            (All-append (λ x. x ≢ b';') front (pair_text c) h (pair_text-Lacks c s)),
        e,
        part_read c s,
        parts_read (b' ' ∷ []) d cookies sd ss (omega arith, tt) (trim_blank (pair_text d)),
      )
      refl

-- The cookies of a Cookie header, whatever the case of its name, are the pairs that the client put in
-- it, in their order.
cookie_header-read :
    (name : Bytes) (cookies : List Cookie)
    → equal_fold name (codes "Cookie") ≡ true
    → All IsSent cookies
    → request_cookies (record { name = name; value = cookie_header cookies } ∷ [])
      ≡ map plain cookies
unfolding request_cookies
cookie_header-read name [] e ss =
    rw e (unfold cookies_of_parts join_text split cut trim cookie_of trim_left trim_right in refl)
cookie_header-read name (c ∷ cookies) e (s, ss) =
    rw (e, parts_read [] c cookies s ss tt refl) (append-nil (map plain (c ∷ cookies)))

set_cookie_value-IsSent :
    (format_time : ℕ → Bytes) (c : Cookie) (text : Bytes)
    → set_cookie_value format_time c ≡ some text
    → EndsClean blanks c.value
    → IsSent c
unfolding set_cookie_value
set_cookie_value-IsSent format_time c text h ends =
    let (pair, _) =
      guard-eq-some (invalid_cookie_name c.name || invalid_cookie_value c.value) _ h in
    record {
      name_ne_nil = is_empty-eq-false (ground (arith, pair));
      name_avoids = (contains_any-eq-false c.name cookie_name_breaks).0 (ground (arith, pair));
      value_avoids = (contains_any-eq-false c.value cookie_value_breaks).0 (ground (arith, pair));
      value_ends = ends;
    }

-- The cookie was set without an error, and its value does not end with a blank.
abbrev pub WasSet : (ℕ → Bytes) → Cookie → Type 0
WasSet format_time c =
    (text : Bytes) × (set_cookie_value format_time c ≡ some text) × EndsClean blanks c.value

-- Cookies that were set without an error, and whose values do not end with a blank, come back: when the
-- client sends their pairs of name and value in one Cookie header, whatever the case of its name,
-- `Request.Cookies` gives their names and values in that order.
pub request_cookies-set_cookie_value :
    (format_time : ℕ → Bytes) (name : Bytes) (cookies : List Cookie)
    → equal_fold name (codes "Cookie") ≡ true
    → All (WasSet format_time) cookies
    → request_cookies (record { name = name; value = cookie_header cookies } ∷ [])
      ≡ map plain cookies
request_cookies-set_cookie_value format_time name cookies e h =
    cookie_header-read name cookies e
      (All-map (λ c k. set_cookie_value-IsSent format_time c k.0 k.1 k.2) cookies h)
