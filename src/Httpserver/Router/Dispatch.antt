-- ===== src/Httpserver/Router/Dispatch.antt =====
-- internal/httpserver/router.go: registering handlers, and choosing one for a request.
use wbsv.Common.{
  ◌-◌, ◌⊎◌, inl, inr, Bool, true, false, not, ◌&&◌, ◌||◌, Option, none, some, List, [], ◌∷◌, ltb,
  leb, ◌==◌, if◌then◌else◌, Bytes, codes, length,
}
use wbsv.Httpserver.Router.{
  slash, split_path, get, RouteNode, insert, RouteMatch, put, contains_any, match_segments,
  RouteSegment, parse_route_segments, is_empty, route_path, put_all, empty_node, has_path_params,
  Entries, Params,
}
use wbsv.Http1.Header.{white, is_empty}
use wbsv.GoText.{join_text, has_prefix, contains_any}

-- `strings.ToUpper`, on ASCII text
unfoldable pub to_upper : Bytes → Bytes
to_upper [] = []
to_upper (c ∷ s) = (if leb b'a' c && leb c b'z' then c - 32 else c) ∷ to_upper s

-- The order of `sort.Strings`.
unfoldable pub bytes_leb : Bytes → Bytes → Bool
bytes_leb [] t = true
bytes_leb (c ∷ s) [] = false
bytes_leb (c ∷ s) (d ∷ t) = let rest = bytes_leb s t in if c == d then rest else ltb c d

unfoldable pub sort_in : Bytes → List Bytes → List Bytes
sort_in s [] = s ∷ []
sort_in s (t ∷ ts) = let rest = sort_in s ts in if bytes_leb s t then s ∷ t ∷ ts else t ∷ rest

unfoldable pub sort : List Bytes → List Bytes
unfolding bytes_leb sort_in
sort [] = []
sort (s ∷ ss) = sort_in s (sort ss)

pub data HandleError : Type 0 where
  invalid_route_path : HandleError
  invalid_route_method : HandleError
  missing_handler : HandleError

-- `anyMethod`
abbrev pub any_method : Bytes
any_method = []

pub record Router {ℓ} (H : Type ℓ) : Type ℓ where
  pub routes : Entries (Entries H)
  pub param_root : RouteNode H

-- The request goes to a handler with the parameters that were bound, if any were, or it is answered
-- with 405 and the methods of these routes, or with 404.
pub data Outcome {ℓ} (H : Type ℓ) : Type ℓ where
  served : H → Option Params → Outcome H
  not_allowed : Entries H → Outcome H
  not_found : Outcome H

module _ {ℓ} {H : Type ℓ} where
  -- `NewRouter`
  abbrev pub new_router : Router H
  new_router = record { routes = []; param_root = empty_node }

  unfoldable pub keys_of : Entries H → List Bytes
  keys_of [] = []
  keys_of ((method, handler) ∷ routes) =
      let rest = keys_of routes in if is_empty method then rest else method ∷ rest

  -- `allowedMethods`
  unfoldable pub allowed_methods : Entries H → Bytes
  unfolding keys_of sort join_text
  allowed_methods routes = join_text (codes ", ") (sort (keys_of routes))

  unfoldable pub with_segments :
      Router H → Bytes → Bytes → H → Option (List RouteSegment) → HandleError ⊎ Router H
  with_segments r method path handler none = inl invalid_route_path
  with_segments r method path handler (some segments) = inr (record r {
    param_root =
        insert
          (record { pattern = path; segments = segments; method_routes = (method, handler) ∷ [] })
          r.param_root;
  })

  -- `handleParamRoute`
  unfoldable pub handle_param_route : Router H → Bytes → Bytes → H → HandleError ⊎ Router H
  unfolding with_segments
  handle_param_route r method path handler =
      with_segments r method path handler (parse_route_segments path)

  abbrev pub or_empty : Option (Entries H) → Entries H
  or_empty none = []
  or_empty (some routes) = routes

  unfoldable pub handle_checked : Router H → Bytes → Bytes → Option H → HandleError ⊎ Router H
  unfolding handle_param_route
  handle_checked r method path none = inl missing_handler
  handle_checked r method path (some handler) =
      if has_path_params path
      then handle_param_route r method path handler
      else inr (record r {
        routes = put path (put method handler (or_empty (get path r.routes))) r.routes;
      })

  -- `HandleMethod`; `none` is a nil handler
  unfoldable pub handle_method : Router H → Bytes → Bytes → Option H → HandleError ⊎ Router H
  unfolding handle_checked to_upper
  handle_method r method path handler =
      if not (is_empty (to_upper method)) && contains_any (to_upper method) white
      then inl invalid_route_method
      else if is_empty path || not (has_prefix path (slash ∷ []))
      then inl invalid_route_path
      else handle_checked r (to_upper method) path handler

  -- `HandleMethodFunc`
  unfoldable pub handle_method_func : Router H → Bytes → Bytes → Option H → HandleError ⊎ Router H
  unfolding handle_method
  handle_method_func r method path none = inl missing_handler
  handle_method_func r method path (some handler) = handle_method r method path (some handler)

  -- `Handle`
  unfoldable pub handle : Router H → Bytes → Option H → HandleError ⊎ Router H
  unfolding handle_method
  handle r path handler = handle_method r any_method path handler

  -- `HandleFunc`
  unfoldable pub handle_func : Router H → Bytes → Option H → HandleError ⊎ Router H
  unfolding handle
  handle_func r path none = inl missing_handler
  handle_func r path (some handler) = handle r path (some handler)

  abbrev pub or_else : Option H → Option H → Option H
  or_else none second = second
  or_else (some handler) second = some handler

  -- `dispatchMethod`, up to its call of the handler
  unfoldable pub dispatch_method : Entries H → Bytes → Option H
  dispatch_method routes method = or_else (get (to_upper method) routes) (get any_method routes)

  unfoldable pub serve_dispatched : Entries H → Option H → Outcome H
  serve_dispatched routes none = Outcome.not_allowed routes
  serve_dispatched routes (some handler) = Outcome.served handler none

  abbrev pub serve_or : Option H → Params → Outcome H → Outcome H
  serve_or none params rest = rest
  serve_or (some handler) params rest = Outcome.served handler (some params)

  -- the loop over the matches, with the methods that they allow
  unfoldable pub serve_matches : Bytes → Entries H → List (RouteMatch H) → Outcome H
  unfolding put_all dispatch_method
  serve_matches method allowed [] =
      if length allowed == 0 then Outcome.not_found else Outcome.not_allowed allowed
  serve_matches method allowed (m ∷ ms) =
      serve_or (dispatch_method m.matched_routes method) m.params
        (serve_matches method (put_all allowed m.matched_routes) ms)

  unfoldable pub serve_path : Router H → Bytes → Bytes → Option (Entries H) → Outcome H
  unfolding dispatch_method serve_matches serve_dispatched
  serve_path r method path (some routes) = serve_dispatched routes (dispatch_method routes method)
  serve_path r method path none =
      serve_matches method [] (match_segments r.param_root (split_path path) [])

  -- `ServeHTTP`, up to its calls on the response writer or of the handler
  unfoldable pub serve_http : Router H → Bytes → Bytes → Outcome H
  unfolding serve_path
  serve_http r method target =
      serve_path r method (route_path target) (get (route_path target) r.routes)
