-- ===== src/Httpserver/Middleware/Auth.antt =====
-- internal/httpserver/auth.go: bearer tokens. `subtle.ConstantTimeCompare` is an equality test.
pub mod Bearer
use wbsv.Common.{
  Bool, false, ◌&&◌, ◌||◌, Option, none, some, List, if◌then◌else◌, Bytes, codes, any, bytes_eq,
  pos,
}
use wbsv.Http1.Header.{is_empty, HeaderField}
use wbsv.Httpserver.App.{set, answer, returns, Middleware}
use wbsv.GoText.{trim_space, cut, equal_fold}

-- what stands behind the scheme, if the scheme is the right one
unfoldable pub bearer_credentials : Option (Bytes × Bytes) → Option Bytes
bearer_credentials none = none
bearer_credentials (some (scheme, token)) =
    if equal_fold scheme (codes "Bearer") then some (trim_space token) else none

abbrev pub is_token : Bytes → Option Bytes → Bool
is_token want none = false
is_token want (some token) = bytes_eq token want

-- `bearerTokenMatches`
unfoldable pub bearer_token_matches : List HeaderField → Bytes → Bool
unfolding bearer_credentials
bearer_token_matches headers want =
    any
      (λ (header : HeaderField).
        equal_fold header.name (codes "Authorization")
        && is_token want (bearer_credentials (cut b' ' (trim_space header.value))))
      headers

-- `BearerAuthMiddleware`
unfoldable pub bearer_auth_middleware : Bytes → Middleware
unfolding bearer_token_matches
bearer_auth_middleware token next request w world =
    if is_empty token || bearer_token_matches request.http.headers token
    then next request w world
    else returns
        (answer (set (codes "WWW-Authenticate") (codes "Bearer realm=\"wbsv\"") w) (pos 401)
          (codes "unauthorized\n"))
        world
