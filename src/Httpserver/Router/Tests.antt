-- ===== src/Httpserver/Router/Tests.antt =====
-- Tests of the router on concrete routes, with numbers as handlers, and its theorems at them.
use wbsv.Common.{ℕ, ◌≡◌, refl, some, List, [], ◌∷◌, codes, bytes_eq}
use wbsv.Httpserver.Router.{
  invalid_route_param_name, parse_segments, param_segment, has_prefix, trim, split_path, insert,
  literal_segment, empty_node, parse_route_segments, RouteSegment, match_segments, ParamRoute,
}
use wbsv.Httpserver.Router.Scan.{listing, scan, IsKeyed, Kind}
use wbsv.Httpserver.Router.Dispatch.{new_router, Router}
use wbsv.Httpserver.Router.Insert.{insert-IsKeyed, kinds}
use wbsv.GoText.{split, has_prefix, trim}
use wbsv.Httpserver.Router.Listed.{match_segments-scan}

abbrev pattern_segments : List RouteSegment
pattern_segments = literal_segment (codes "users") ∷ param_segment (codes "id") ∷ []

abbrev user_route : ParamRoute ℕ
user_route = record {
  pattern = codes "/users/:id";
  segments = pattern_segments;
  method_routes = (codes "GET", 7) ∷ [];
}

abbrev user_router : Router ℕ
user_router = record { routes = []; param_root = insert user_route empty_node }

abbrev start : Router ℕ
start = new_router

start-IsKeyed : IsKeyed start.param_root
unfolding IsKeyed
start-IsKeyed = (tt, tt, tt)

user_router-IsKeyed : IsKeyed user_router.param_root
user_router-IsKeyed = insert-IsKeyed user_route empty_node start-IsKeyed

match_segments-scan_example :
    match_segments user_router.param_root (split_path (codes "/users/42")) []
    ≡ scan (listing user_router.param_root) (split_path (codes "/users/42")) []
match_segments-scan_example =
    match_segments-scan user_router.param_root (codes "/users/42") user_router-IsKeyed

-- A pattern with an empty segment fits a path without it, and not its own form.
empty_segment_passed_over :
    (r : List RouteSegment)
    → r ≡ literal_segment (codes "a") ∷ literal_segment [] ∷ param_segment (codes "b") ∷ []
    → kinds r ≡ Kind.literal (codes "a") ∷ Kind.param (codes "b") ∷ []
unfolding kinds
empty_segment_passed_over r e = rw e refl

empty_segment-parsed :
    parse_route_segments (codes "/a//:b")
    ≡ some (literal_segment (codes "a") ∷ literal_segment [] ∷ param_segment (codes "b") ∷ [])
unfolding parse_route_segments split_path trim split parse_segments invalid_route_param_name
    has_prefix bytes_eq
empty_segment-parsed = refl
