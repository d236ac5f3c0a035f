-- ===== src/Httpserver/Router.antt =====
-- internal/httpserver/router.go: paths, their segments, and the tree of the routes with parameters.
-- A handler is a value of any type `H`. A Go map is a list of its entries, one for each key.

pub mod Scan
pub mod Listed
pub mod Insert
pub mod Found
pub mod Dispatch
pub mod Served
pub mod Tests
use wbsv.Common.{
  ℕ, Bool, not, ◌||◌, Option, none, some, List, [], ◌∷◌, ◌++◌, ◌==◌, if◌then◌else◌, Bytes, length,
  drop, any, bytes_eq,
}
use wbsv.GoText.{join, split, contains_any, has_prefix, cut, trim}
use wbsv.Http1.Header.{white, is_empty}

-- `strings.Join(parts, "/")`
abbrev pub slash : ℕ
slash = b'/'

-- `splitPath`
unfoldable pub split_path : Bytes → List Bytes
split_path path =
    let trimmed = trim (slash ∷ []) path in if is_empty trimmed then [] else split slash trimmed

abbrev pub is_param : Bytes → Bool
is_param segment = has_prefix segment (b':' ∷ [])

abbrev pub is_wildcard : Bytes → Bool
is_wildcard segment = has_prefix segment (b'*' ∷ [])

-- `hasPathParams`
unfoldable pub has_path_params : Bytes → Bool
unfolding split_path
has_path_params path = any (λ segment. is_param segment || is_wildcard segment) (split_path path)

-- `invalidRouteParamName`
unfoldable pub invalid_route_param_name : Bytes → Bool
invalid_route_param_name name = is_empty name || contains_any name white

pub record RouteSegment : Type 0 where
  pub literal : Bytes
  pub param_name : Bytes
  pub wildcard_name : Bytes

abbrev pub literal_segment : Bytes → RouteSegment
literal_segment s = record { literal = s; param_name = []; wildcard_name = [] }

abbrev pub param_segment : Bytes → RouteSegment
param_segment s = record { literal = []; param_name = s; wildcard_name = [] }

abbrev pub wildcard_segment : Bytes → RouteSegment
wildcard_segment s = record { literal = []; param_name = []; wildcard_name = s }

abbrev pub seen : List Bytes → Bytes → Bool
seen names name = any (bytes_eq name) names

abbrev pub cons_segment : RouteSegment → Option (List RouteSegment) → Option (List RouteSegment)
cons_segment s none = none
cons_segment s (some ss) = some (s ∷ ss)

-- the loop of `parseRouteSegments`, with the names seen so far; `none` is `ErrInvalidRoutePath`
unfoldable pub parse_segments : List Bytes → List Bytes → Option (List RouteSegment)
unfolding invalid_route_param_name
parse_segments names [] = some []
parse_segments names (raw ∷ rest) =
    let name = drop 1 raw in
    let behind_param = parse_segments (name ∷ names) rest in
    let behind_literal = parse_segments names rest in
    if is_param raw
    then (if invalid_route_param_name name || seen names name
        then none
        else cons_segment (param_segment name) behind_param)
    else if is_wildcard raw
    then (if invalid_route_param_name name || not (length rest == 0) || seen names name
        then none
        else cons_segment (wildcard_segment name) behind_param)
    else cons_segment (literal_segment raw) behind_literal

-- `parseRouteSegments`
unfoldable pub parse_route_segments : Bytes → Option (List RouteSegment)
unfolding parse_segments split_path
parse_route_segments path = parse_segments [] (split_path path)

-- `routePath`
unfoldable pub before_query : Option (Bytes × Bytes) → Bytes → Bytes
before_query none target = target
before_query (some (path, query)) target = path

unfoldable pub route_path : Bytes → Bytes
unfolding before_query
route_path target =
    let path = before_query (cut b'?' target) target in if is_empty path then slash ∷ [] else path

-- The entries of a `map[string]V`.
abbrev pub Entries {ℓ} : Type ℓ → Type ℓ
Entries V = List (Bytes × V)

-- `m[key]`
unfoldable pub get {ℓ} : {V : Type ℓ} → Bytes → Entries V → Option V
get key [] = none
get key ((k, v) ∷ m) = let rest = get key m in if bytes_eq k key then some v else rest

-- `m[key] = v`
unfoldable pub put {ℓ} : {V : Type ℓ} → Bytes → V → Entries V → Entries V
put key v [] = (key, v) ∷ []
put key v ((k, w) ∷ m) =
    let rest = put key v m in if bytes_eq k key then (k, v) ∷ m else (k, w) ∷ rest

abbrev pub Params : Type 0
Params = Entries Bytes

-- `withRouteParam`; the copy is one by value
abbrev pub with_route_param : Params → Bytes → Bytes → Params
with_route_param params name value = put name value params

pub record ParamRoute {ℓ} (H : Type ℓ) : Type ℓ where
  pub pattern : Bytes
  pub segments : List RouteSegment
  pub method_routes : Entries H

pub record RouteMatch {ℓ} (H : Type ℓ) : Type ℓ where
  pub matched_routes : Entries H
  pub params : Params

-- `routeNode` and the lists of its children: `literalChildren` by literal, `paramChildren` and
-- `wildcardChildren` by name.
mutual
  pub data RouteNode {ℓ} (H : Type ℓ) : Type ℓ where
    node : List (ParamRoute H) → RouteEdges H → RouteEdges H → RouteEdges H → RouteNode H

  pub data RouteEdges {ℓ} (H : Type ℓ) : Type ℓ where
    no_edges : RouteEdges H
    edge : Bytes → RouteNode H → RouteEdges H → RouteEdges H

module _ {ℓ} {H : Type ℓ} where
  abbrev pub empty_node : RouteNode H
  empty_node = node [] no_edges no_edges no_edges

  -- `literalChild`, `paramChild`, `wildcardChild`: the first child of this name is changed; a new one
  -- is made at the end.
  unfoldable pub at_child : Bytes → (RouteNode H → RouteNode H) → RouteEdges H → RouteEdges H
  at_child name change no_edges = edge name (change empty_node) no_edges
  at_child name change (edge key child rest) =
      let others = at_child name change rest in
      if bytes_eq key name then edge key (change child) rest else edge key child others

  -- `for method, handler := range from { into[method] = handler }`
  unfoldable pub put_all : Entries H → Entries H → Entries H
  put_all into [] = into
  put_all into ((method, handler) ∷ from) = put_all (put method handler into) from

  -- the end of `insert`: the route joins one with its pattern or comes last
  unfoldable pub add_route : ParamRoute H → List (ParamRoute H) → List (ParamRoute H)
  add_route route [] = route ∷ []
  add_route route (r ∷ routes) =
      let others = add_route route routes in
      if bytes_eq r.pattern route.pattern
      then record r { method_routes = put_all r.method_routes route.method_routes } ∷ routes
      else r ∷ others

  -- `insert`, below a node; a segment without any name is passed over, as by the switch
  unfoldable pub insert_at : ParamRoute H → List RouteSegment → RouteNode H → RouteNode H
  unfolding at_child add_route
  insert_at route [] (node routes ls ps ws) = node (add_route route routes) ls ps ws
  insert_at route (s ∷ ss) (node routes ls ps ws) =
      if not (is_empty s.literal)
      then node routes (at_child s.literal (insert_at route ss) ls) ps ws
      else if not (is_empty s.param_name)
      then node routes ls (at_child s.param_name (insert_at route ss) ps) ws
      else if not (is_empty s.wildcard_name)
      then node routes ls ps (at_child s.wildcard_name (insert_at route ss) ws)
      else insert_at route ss (node routes ls ps ws)

  -- `insert`
  unfoldable pub insert : ParamRoute H → RouteNode H → RouteNode H
  unfolding insert_at
  insert route n = insert_at route route.segments n

  -- `terminalMatches`
  unfoldable pub terminal_matches : List (ParamRoute H) → Params → List (RouteMatch H)
  terminal_matches [] params = []
  terminal_matches (r ∷ routes) params =
      record { matched_routes = r.method_routes; params = params } ∷ terminal_matches routes params

unfoldable mutual
  unfolding terminal_matches

  -- `matchSegments`, for the segments from `index` on
  pub match_segments {ℓ} : {H : Type ℓ} → RouteNode H → List Bytes → Params → List (RouteMatch H)
  match_segments (node routes ls ps ws) [] params =
      terminal_matches routes params ++ match_wildcards ws [] params
  match_segments (node routes ls ps ws) (s ∷ ss) params =
      match_literal ls s ss params
      ++ match_params ps s ss params
      ++ match_wildcards ws (join slash (s ∷ ss)) params

  pub match_literal {ℓ} :
      {H : Type ℓ} → RouteEdges H → Bytes → List Bytes → Params → List (RouteMatch H)
  match_literal no_edges s ss params = []
  match_literal (edge key child rest) s ss params =
      let found = match_segments child ss params in
      let others = match_literal rest s ss params in if bytes_eq key s then found else others

  pub match_params {ℓ} :
      {H : Type ℓ} → RouteEdges H → Bytes → List Bytes → Params → List (RouteMatch H)
  match_params no_edges s ss params = []
  match_params (edge name child rest) s ss params =
      match_segments child ss (with_route_param params name s) ++ match_params rest s ss params

  pub match_wildcards {ℓ} : {H : Type ℓ} → RouteEdges H → Bytes → Params → List (RouteMatch H)
  match_wildcards no_edges value params = []
  match_wildcards (edge name child rest) value params =
      match_segments child [] (with_route_param params name value)
      ++ match_wildcards rest value params
