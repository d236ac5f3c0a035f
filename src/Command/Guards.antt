-- ===== src/Command/Guards.antt =====
-- Requests that do not reach the application behind the middleware of the command (cmd/wbsv/main.go).
use wbsv.Common.{
  ◌≡◌, refl, ◌≢◌, inl, inr, Bool, true, false, not, Option, some, List, [], ◌∷◌, ◌++◌, Bool-cases,
  Bytes, ltb_ℤ, pos,
}
use wbsv.Httpserver.App.{chain, Middleware, wrap, AppRequest, Writer, World, AppHandler}
use wbsv.Httpserver.Middleware.Cors.{cors_middleware}
use wbsv.Httpserver.Middleware.Recovery.{recovery_middleware}
use wbsv.Httpserver.Middleware.Logging.{logging_middleware}
use wbsv.Httpserver.Middleware.Compression.{gzip_middleware}
use wbsv.Http1.Request.{Request}
use wbsv.Httpserver.Middleware.Auth.{bearer_token_matches, bearer_auth_middleware}
use wbsv.Http1.Header.Field.{is_empty_of_ne_nil}
use wbsv.Http1.Header.{HeaderField, is_empty}
use wbsv.Httpserver.Middleware.Limit.{rate_limit_middleware}
use wbsv.Httpserver.App.{chain, Middleware}
use wbsv.Command.{only_if, middlewares, cors_options, served_by, Flags}
use wbsv.Httpserver.Middleware.Alike.{
  recovery_middleware-Alike, gzip_middleware-Alike, logging_middleware-Alike,
  request_id_middleware-Alike, cors_middleware-Alike, Alike,
}
use wbsv.Httpserver.Middleware.Auth.Bearer.{HasBearer, bearer_token_matches_iff}

-- A request that does not carry the token that is asked for.
abbrev pub Unauthorized : Flags → Request → Type 0
Unauthorized flags request = (flags.auth_token ≢ []) × ¬ HasBearer flags.auth_token request.headers

no_bearer :
    (headers : List HeaderField) (token : Bytes)
    → ¬ HasBearer token headers
    → bearer_token_matches headers token ≡ false
no_bearer headers token without = elim (Bool-cases (bearer_token_matches headers token)) [
  | inl found ↦ absurd (without ((bearer_token_matches_iff headers token).0 found))
  | inr refused ↦ refused
]

bearer_auth-Alike :
    (flags : Flags) (a b : AppHandler)
    → Alike
        (Unauthorized flags)
        (bearer_auth_middleware flags.auth_token a)
        (bearer_auth_middleware flags.auth_token b)
unfolding bearer_auth_middleware
bearer_auth-Alike flags a b request w world (ne, h) =
    rw (is_empty_of_ne_nil flags.auth_token ne, no_bearer request.http.headers flags.auth_token h)
      refl

wrap-only_if-Alike :
    (P : Request → Type 0) (test : Bool) (m : Middleware) (rest : List (Option Middleware))
    (a b : AppHandler)
    → ((x y : AppHandler) → Alike P x y → Alike P (m x) (m y))
    → Alike P (wrap rest a) (wrap rest b)
    → Alike P (wrap (only_if test m ++ rest) a) (wrap (only_if test m ++ rest) b)
unfolding wrap
wrap-only_if-Alike P true m rest a b keeps h = keeps (wrap rest a) (wrap rest b) h
wrap-only_if-Alike P false m rest a b keeps h = h

module _ (gzip : Bytes → Option Bytes) (flags : Flags) (a b : AppHandler) where
  abbrev inner_guards : List (Option Middleware)
  inner_guards =
      only_if (not (is_empty flags.auth_token)) (bearer_auth_middleware flags.auth_token)
      ++ only_if (ltb_ℤ (pos 0) flags.rate_limit)
          (rate_limit_middleware flags.rate_limit flags.rate_window)

  abbrev below_cors : List (Option Middleware)
  below_cors = some (gzip_middleware gzip (pos 1)) ∷ some (recovery_middleware true) ∷ inner_guards

  abbrev from_cors : List (Option Middleware)
  from_cors =
      only_if (not (is_empty flags.cors_allow_origin)) (cors_middleware (cors_options flags))
      ++ below_cors

  -- What holds from the CORS middleware inwards holds for the whole chain.
  outer-Alike :
      (P : Request → Type 0)
      → Alike P (wrap from_cors a) (wrap from_cors b)
      → Alike P (served_by gzip flags (some a)) (served_by gzip flags (some b))
  unfolding served_by middlewares chain wrap
  outer-Alike P h =
      request_id_middleware-Alike P (logging_middleware true (wrap from_cors a))
        (logging_middleware true (wrap from_cors b))
        (logging_middleware-Alike P (wrap from_cors a) (wrap from_cors b) h)

  Unauthorized-Alike :
      flags.auth_token ≢ [] → Alike (Unauthorized flags) (wrap inner_guards a) (wrap inner_guards b)
  unfolding wrap
  Unauthorized-Alike ne = rw (is_empty_of_ne_nil flags.auth_token ne) (
      bearer_auth-Alike flags
        (wrap
          (only_if (ltb_ℤ (pos 0) flags.rate_limit)
            (rate_limit_middleware flags.rate_limit flags.rate_window))
          a)
        (wrap
          (only_if (ltb_ℤ (pos 0) flags.rate_limit)
            (rate_limit_middleware flags.rate_limit flags.rate_window))
          b))

  served_by-Unauthorized :
      flags.auth_token ≢ []
      → Alike (Unauthorized flags) (served_by gzip flags (some a)) (served_by gzip flags (some b))
  unfolding wrap
  served_by-Unauthorized ne = outer-Alike (Unauthorized flags) (
      wrap-only_if-Alike (Unauthorized flags) (not (is_empty flags.cors_allow_origin))
        (cors_middleware (cors_options flags)) below_cors a b
        (λ x y h. cors_middleware-Alike (Unauthorized flags) x y h (cors_options flags))
        (gzip_middleware-Alike (Unauthorized flags) (recovery_middleware true (wrap inner_guards a))
          (recovery_middleware true (wrap inner_guards b))
          (recovery_middleware-Alike (Unauthorized flags) (wrap inner_guards a)
            (wrap inner_guards b) (Unauthorized-Alike ne) true)
          gzip (pos 1)))

-- A request that carries no field with the token, when the command is given one, does not reach the
-- application: any other application in its place gives the same response and leaves the same state.
pub served_by-guarded :
    (gzip : Bytes → Option Bytes) (flags : Flags) (a b : AppHandler) (request : AppRequest)
    (w : Writer) (world : World)
    → flags.auth_token ≢ []
    → ¬ HasBearer flags.auth_token request.http.headers
    → served_by gzip flags (some a) request w world ≡ served_by gzip flags (some b) request w world
served_by-guarded gzip flags a b request w world ne without =
    served_by-Unauthorized gzip flags a b ne request w world (ne, without)
