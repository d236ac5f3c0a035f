-- ===== src/Httpserver/Cookie.antt =====
-- internal/httpserver/cookie.go, the cookies of a request in app.go, and `SetCookie` of
-- response_writer.go. A `time.Time` is a number,
-- with 0 for the zero time; how a time is formatted is a parameter.
pub mod Asked
pub mod Attributes
pub mod Pairs
use wbsv.Common.{
  ℕ, Bool, false, not, ◌&&◌, ◌||◌, Option, none, some, List, [], ◌∷◌, ◌++◌, ◌==◌, if◌then◌else◌,
  Bytes, codes, bytes_eq, ℤ, ltb_ℤ, pos,
}
use wbsv.Http1.Header.{blanks, is_empty, HeaderField}
use wbsv.GoText.{split, trim, cut, format_int, equal_fold, contains_any}
use wbsv.Httpserver.ResponseWriter.{add_header, ResponseWriter}

pub record Cookie : Type 0 where
  pub name : Bytes
  pub value : Bytes
  pub path : Bytes
  pub domain : Bytes
  pub expires : ℕ
  pub max_age : ℤ
  pub secure : Bool
  pub http_only : Bool
  pub same_site : Bytes

-- `Cookie{Name: name, Value: value}`
abbrev pub plain_cookie : Bytes → Bytes → Cookie
plain_cookie name value = record {
  name = name;
  value = value;
  path = [];
  domain = [];
  expires = 0;
  max_age = pos 0;
  secure = false;
  http_only = false;
  same_site = [];
}

-- `" \t\r\n=;"`
abbrev pub cookie_name_breaks : Bytes
cookie_name_breaks = b' ' ∷ b'\t' ∷ b'\r' ∷ b'\n' ∷ b'=' ∷ b';' ∷ []

-- `"\r\n;"`
abbrev pub cookie_value_breaks : Bytes
cookie_value_breaks = b'\r' ∷ b'\n' ∷ b';' ∷ []

abbrev pub invalid_cookie_name : Bytes → Bool
invalid_cookie_name name = is_empty name || contains_any name cookie_name_breaks

-- `invalidRequestCookieValue`, `invalidSetCookieValue`, `invalidCookieAttributeValue`
abbrev pub invalid_cookie_value : Bytes → Bool
invalid_cookie_value value = contains_any value cookie_value_breaks

-- one part of a Cookie header behind its `strings.Cut`
unfoldable pub cookie_of : Option (Bytes × Bytes) → List Cookie
cookie_of none = []
cookie_of (some (name, value)) =
    if invalid_cookie_name name || invalid_cookie_value value
    then []
    else plain_cookie name value ∷ []

unfoldable pub cookies_of_parts : List Bytes → List Cookie
unfolding cookie_of
cookies_of_parts [] = []
cookies_of_parts (part ∷ parts) = cookie_of (cut b'=' (trim blanks part)) ++ cookies_of_parts parts

-- `requestCookies`
unfoldable pub request_cookies : List HeaderField → List Cookie
unfolding cookies_of_parts
request_cookies [] = []
request_cookies (header ∷ headers) =
    let rest = request_cookies headers in
    if equal_fold header.name (codes "Cookie")
    then cookies_of_parts (split b';' header.value) ++ rest
    else rest

-- the loop of `Request.Cookie`, on the cookies of the request
unfoldable pub find_cookie : List Cookie → Bytes → Option Cookie
find_cookie [] name = none
find_cookie (cookie ∷ cookies) name =
    let rest = find_cookie cookies name in if bytes_eq cookie.name name then some cookie else rest

-- What is written behind the value: each part with whether it is there.
unfoldable pub write_parts : List (Bool × Bytes) → Bytes
write_parts [] = []
write_parts ((there, part) ∷ parts) =
    let rest = write_parts parts in if there then b';' ∷ b' ' ∷ (part ++ rest) else rest

-- the number for `Max-Age`; a negative one asks for the cookie to go
abbrev pub max_age_value : ℤ → Bytes
max_age_value age = if ltb_ℤ (pos 0) age then format_int age else codes "0"

abbrev pub add_cookie : ResponseWriter → Option Bytes → Option ResponseWriter
add_cookie w none = none
add_cookie w (some value) = some (add_header w (codes "Set-Cookie") value)

module _ (format_time : ℕ → Bytes) where
  abbrev pub cookie_parts : Cookie → List (Bool × Bytes)
  cookie_parts c =
      (not (is_empty c.path), codes "Path=" ++ c.path)
      ∷ (not (is_empty c.domain), codes "Domain=" ++ c.domain)
      ∷ (not (c.expires == 0), codes "Expires=" ++ format_time c.expires)
      ∷ (
        ltb_ℤ (pos 0) c.max_age || ltb_ℤ c.max_age (pos 0),
        codes "Max-Age=" ++ max_age_value c.max_age,
      )
      ∷ (c.secure, codes "Secure")
      ∷ (c.http_only, codes "HttpOnly")
      ∷ (not (is_empty c.same_site), codes "SameSite=" ++ c.same_site)
      ∷ []

  unfoldable pub cookie_text : Cookie → Bytes
  unfolding write_parts
  cookie_text c = (c.name ++ b'=' ∷ c.value) ++ write_parts (cookie_parts c)

  -- `setCookieValue`; `none` is `ErrInvalidCookie`
  unfoldable pub set_cookie_value : Cookie → Option Bytes
  unfolding cookie_text
  set_cookie_value c =
      if invalid_cookie_name c.name || invalid_cookie_value c.value
      then none
      else if not (is_empty c.path) && invalid_cookie_value c.path
      then none
      else if not (is_empty c.domain) && invalid_cookie_value c.domain
      then none
      else if not (is_empty c.same_site) && invalid_cookie_value c.same_site
      then none
      else some (cookie_text c)

  -- `SetCookie`; the writer stays as it is when the error is returned
  unfoldable pub set_cookie : ResponseWriter → Cookie → Option ResponseWriter
  unfolding set_cookie_value
  set_cookie w c = add_cookie w (set_cookie_value c)
