-- ===== src/Httpserver/Router/Served.antt =====
-- What is registered is served (internal/httpserver/router.go, `HandleMethod` and `ServeHTTP`).
use wbsv.Common.{
  ◌≡◌, refl, ◌⊎◌, inl, inr, Bool, true, false, not, ◌&&◌, ◌||◌, Option, none, some, List, [], ◌∷◌,
  arith, if◌then◌else◌, Bytes,
}
use wbsv.Httpserver.Router.{
  RouteSegment, slash, has_prefix, put, is_empty, route_path, get, RouteMatch, has_path_params,
  Entries,
}
use wbsv.Httpserver.Router.Dispatch.{
  serve_dispatched, serve_path, or_empty, to_upper, handle_checked, handle_method, Router,
  dispatch_method, Outcome, HandleError, serve_http,
}
use wbsv.Httpserver.Router.Insert.{Among}
use mathlib.Core.Path.{subst}
use wbsv.Http1.Header.{white, is_empty}
use wbsv.GoText.{contains_any, has_prefix}
use wbsv.Httpserver.Router.Found.{get-put}
use wbsv.Httpserver.Router.Scan.{Kind}

-- What a segment of a pattern asks for, when it is not empty: a literal, a parameter or a wildcard.
abbrev pub kind_of : RouteSegment → Kind
kind_of s =
    if not (is_empty s.literal)
    then Kind.literal s.literal
    else if not (is_empty s.param_name)
    then Kind.param s.param_name
    else Kind.wildcard s.wildcard_name

-- A segment that is not empty.
abbrev pub IsNamed : RouteSegment → Type 0
IsNamed s = (is_empty s.literal && (is_empty s.param_name && is_empty s.wildcard_name)) ≡ false

module _ {ℓ} {H : Type ℓ} where
  refused_at :
      (b : Bool) (e : HandleError) (x : HandleError ⊎ Router H) (r : Router H)
      → (if b then inl e else x) ≡ inr r
      → x ≡ inr r
  refused_at true e x r h = absurd (apart e r h)
    where
      apart :
          (e : HandleError) (r : Router H) → ◌≡◌ {A = HandleError ⊎ Router H} (inl e) (inr r) → ⊥
      apart e r h = ground arith
  refused_at false e x r h = h

  -- A registration that succeeds got past the guards.
  handle_method-checked :
      (r r' : Router H) (method path : Bytes) (handler : Option H)
      → handle_method r method path handler ≡ inr r'
      → handle_checked r (to_upper method) path handler ≡ inr r'
  unfolding handle_method
  handle_method-checked r r' method path handler h =
      refused_at (is_empty path || not (has_prefix path (slash ∷ [])))
        HandleError.invalid_route_path (handle_checked r (to_upper method) path handler) r'
        (refused_at (not (is_empty (to_upper method)) && contains_any (to_upper method) white)
          HandleError.invalid_route_method
          (if is_empty path || not (has_prefix path (slash ∷ []))
            then inl HandleError.invalid_route_path
            else handle_checked r (to_upper method) path handler)
          r' h)

  of_inr : (x y : Router H) → ◌≡◌ {A = HandleError ⊎ Router H} (inr x) (inr y) → x ≡ y
  of_inr x y h = ground arith

  dispatch_method_found :
      (routes : Entries H) (method m : Bytes) (handler : H)
      → to_upper m ≡ method
      → get method routes ≡ some handler
      → dispatch_method routes m ≡ some handler
  unfolding dispatch_method
  dispatch_method_found routes method m handler e h = rw (e, h) refl

  -- A handler that is registered for a path without parameters serves the requests of its method, in
  -- any case of letters, for this path with any query.
  pub handle_method_static :
      (r r' : Router H) (method path : Bytes) (handler : H)
      → handle_method r method path (some handler) ≡ inr r'
      → has_path_params path ≡ false
      → (m target : Bytes) → to_upper m ≡ to_upper method
      → route_path target ≡ path
      → serve_http r' m target ≡ Outcome.served handler none
  unfolding serve_http
  handle_method_static r r' method path handler h static m target upper target_is =
      let routes = put (to_upper method) handler (or_empty (get path r.routes)) in
      let made = record r { routes = put path routes r.routes } in
      let is : made ≡ r' = of_inr made r' (
        unfold handle_checked in
        rw static at (handle_method-checked r r' method path (some handler) h)) in
      let dispatched : dispatch_method routes m ≡ some handler =
        dispatch_method_found routes (to_upper method) m handler upper
          (get-put (to_upper method) handler (or_empty (get path r.routes))) in
      subst (λ x. serve_http x m target ≡ Outcome.served handler none) is
        (rw (target_is, get-put path routes r.routes)
          (unfold serve_path serve_dispatched in rw dispatched refl))

  -- One of the matches serves the request.
  pub record IsServed (o : Outcome H) (ms : List (RouteMatch H)) (m : Bytes) : Type ℓ where
    pub chosen : RouteMatch H
    pub handler : H
    pub among : Among chosen ms
    pub serves : dispatch_method chosen.matched_routes m ≡ some handler
    pub outcome : o ≡ Outcome.served handler (some chosen.params)
