-- ===== src/Httpserver/Router/Found.antt =====
-- A route that was registered is found.
use wbsv.Common.{
  ◌≡◌, refl, ap, ◌∙◌, inl, inr, Option, none, some, List, [], ◌∷◌, ◌++◌, Bool-cases, Bytes,
  bytes_eq, bytes_eq_iff,
}
use wbsv.Httpserver.Router.{
  is_empty, empty_node, node, RouteMatch, RouteSegment, RouteEdges, Entries, RouteNode, put_all,
  insert_at, put, at_child, ParamRoute, add_route, get, Params,
}
use wbsv.Httpserver.Router.Scan.{list_edges, cons_match, listing, bind, at_node, under, scan, Kind}
use wbsv.Httpserver.Router.Insert.{kinds, Among, Among-append_right, Among-append_left}
use mathlib.Core.Path.{subst}
use wbsv.Http1.Header.{is_empty}

-- A route of the list stands at these segments and has this handler for the method.
pub record Registered {ℓ} {H : Type ℓ} (ks : List Kind) (method : Bytes) (handler : H)
    (routes : List (List Kind × ParamRoute H)) : Type ℓ where
  pub route : ParamRoute H
  pub there : Among (ks, route) routes
  pub serves : get method route.method_routes ≡ some handler

module _ {ℓ} {V : Type ℓ} where
  pub get-put : (key : Bytes) (v : V) (m : Entries V) → get key (put key v m) ≡ some v
  unfolding get put
  get-put key v [] = let same = (bytes_eq_iff key key).1 refl in rw same refl
  get-put key v ((k, w) ∷ m) = elim (Bool-cases (bytes_eq k key)) [
    | inl same ↦ rw (same, same) refl
    | inr other ↦ rw (other, other) (get-put key v m)
  ]

module _ {ℓ} {H : Type ℓ} (method : Bytes) (handler : H) where
  Registered-append_left :
      (ks : List Kind) (a b : List (List Kind × ParamRoute H))
      → Registered ks method handler a
      → Registered ks method handler (a ++ b)
  Registered-append_left ks a b r = record {
    route = r.route;
    there = Among-append_left (ks, r.route) a b r.there;
    serves = r.serves;
  }

  Registered-append_right :
      (ks : List Kind) (a b : List (List Kind × ParamRoute H))
      → Registered ks method handler b
      → Registered ks method handler (a ++ b)
  Registered-append_right ks a b r = record {
    route = r.route;
    there = Among-append_right (ks, r.route) a b r.there;
    serves = r.serves;
  }

  Registered-next :
      (ks : List Kind) (x : List Kind × ParamRoute H) (a : List (List Kind × ParamRoute H))
      → Registered ks method handler a
      → Registered ks method handler (x ∷ a)
  Registered-next ks x a r = record {
    route = r.route;
    there = Among.later r.there;
    serves = r.serves;
  }

  Among-under :
      (k : Kind) (ks : List Kind) (r : ParamRoute H) (a : List (List Kind × ParamRoute H))
      → Among (ks, r) a
      → Among (k ∷ ks, r) (under k a)
  unfolding under
  Among-under k ks r [] h = elim h [ ]
  Among-under k ks r ((ks', r') ∷ a) (Among.first e) =
      Among.first (ap (λ (x : List Kind × ParamRoute H). (k ∷ x.0, x.1)) e)
  Among-under k ks r ((ks', r') ∷ a) (Among.later h) = Among.later (Among-under k ks r a h)

  Registered-under :
      (k : Kind) (ks : List Kind) (a : List (List Kind × ParamRoute H))
      → Registered ks method handler a
      → Registered (k ∷ ks) method handler (under k a)
  Registered-under k ks a r = record {
    route = r.route;
    there = Among-under k ks r.route a r.there;
    serves = r.serves;
  }

  add_route-Registered :
      (route : ParamRoute H) (routes : List (ParamRoute H))
      → route.method_routes ≡ (method, handler) ∷ []
      → Registered [] method handler (at_node (add_route route routes))
  unfolding add_route at_node put_all put
  add_route-Registered route [] e = record {
    route = route;
    there = Among.first refl;
    serves = ap (get method) e ∙ get-put method handler [];
  }
  add_route-Registered route (r ∷ routes) e = elim (Bool-cases (bytes_eq r.pattern route.pattern)) [
    | inl same ↦
        rw (same, e)
          (record {
            route = record r { method_routes = put method handler r.method_routes };
            there = Among.first refl;
            serves = get-put method handler r.method_routes;
          })
    | inr other ↦ rw other (
        Registered-next [] ([], r) (at_node (add_route route routes))
          (add_route-Registered route routes e))
  ]

  at_child-Registered :
      (kind : Bytes → Kind) (name : Bytes) (ks : List Kind) (change : RouteNode H → RouteNode H)
      → ((n : RouteNode H) → Registered ks method handler (listing (change n)))
      → (edges : RouteEdges H)
      → Registered (kind name ∷ ks) method handler (list_edges kind (at_child name change edges))
  unfolding at_child listing
  at_child-Registered kind name ks change reg RouteEdges.no_edges =
      Registered-append_left (kind name ∷ ks) (under (kind name) (listing (change empty_node))) []
        (Registered-under (kind name) ks (listing (change empty_node)) (reg empty_node))
  at_child-Registered kind name ks change reg (RouteEdges.edge key child rest) =
      elim (Bool-cases (bytes_eq key name)) [
        | inl same ↦ rw same (
            Registered-append_left (kind name ∷ ks) (under (kind key) (listing (change child)))
              (list_edges kind rest)
              (subst
                (λ x.
                  Registered (kind x ∷ ks) method handler
                    (under (kind key) (listing (change child))))
                ((bytes_eq_iff key name).0 same)
                (Registered-under (kind key) ks (listing (change child)) (reg child))))
        | inr other ↦ rw other (
            Registered-append_right (kind name ∷ ks) (under (kind key) (listing child))
              (list_edges kind (at_child name change rest))
              (at_child-Registered kind name ks change reg rest))
      ]

  module _ (route : ParamRoute H) (only : route.method_routes ≡ (method, handler) ∷ []) where
    pub insert_at-Registered :
        (segments : List RouteSegment) (n : RouteNode H)
        → Registered (kinds segments) method handler (listing (insert_at route segments n))
    unfolding insert_at kinds listing
    insert_at-Registered [] (node routes ls ps ws) =
        let a = at_node (add_route route routes) in
        let b = list_edges Kind.literal ls in
        let c = list_edges Kind.param ps in
        let d = list_edges Kind.wildcard ws in
        Registered-append_left [] (a ++ b ++ c) d (
          Registered-append_left [] (a ++ b) c
            (Registered-append_left [] a b (add_route-Registered route routes only)))
    insert_at-Registered (s ∷ ss) (node routes ls ps ws) =
        let a = at_node routes in
        let b = list_edges Kind.literal ls in
        let c = list_edges Kind.param ps in
        let d = list_edges Kind.wildcard ws in
        let rest = kinds ss in
        let below = insert_at-Registered ss in
        let change = insert_at route ss in
        elim (Bool-cases (is_empty s.literal)) [
          | inr is_literal ↦
              let b' = list_edges Kind.literal (at_child s.literal change ls) in
              let ks = Kind.literal s.literal ∷ rest in
              rw is_literal (
                Registered-append_left ks (a ++ b' ++ c) d (
                  Registered-append_left ks (a ++ b') c (
                    Registered-append_right ks a b'
                      (at_child-Registered Kind.literal s.literal rest change below ls))))
          | inl no_literal ↦ elim (Bool-cases (is_empty s.param_name)) [
            | inr is_param ↦
                let c' = list_edges Kind.param (at_child s.param_name change ps) in
                let ks = Kind.param s.param_name ∷ rest in
                rw (no_literal, is_param)
                  (Registered-append_left ks (a ++ b ++ c') d (
                    Registered-append_right ks (a ++ b) c'
                      (at_child-Registered Kind.param s.param_name rest change below ps)))
            | inl no_param ↦ elim (Bool-cases (is_empty s.wildcard_name)) [
              | inr is_wildcard ↦
                  let d' = list_edges Kind.wildcard (at_child s.wildcard_name change ws) in
                  let ks = Kind.wildcard s.wildcard_name ∷ rest in
                  rw (no_literal, no_param, is_wildcard)
                    (Registered-append_right ks (a ++ b ++ c) d'
                      (at_child-Registered Kind.wildcard s.wildcard_name rest change below ws))
              | inl unnamed ↦ rw (no_literal, no_param, unnamed) (below (node routes ls ps ws))
            ]
          ]
        ]

  pub Registered-scan :
      (ks : List Kind) (path : List Bytes) (params bound : Params)
      → bind ks path params ≡ some bound
      → (routes : List (List Kind × ParamRoute H)) (r : ParamRoute H) → Among (ks, r) routes
      → Among
          (record { matched_routes = r.method_routes; params = bound })
          (scan routes path params)
  unfolding scan
  Registered-scan ks path params bound e [] r h = elim h [ ]
  Registered-scan ks path params bound e ((ks', r') ∷ routes) r (Among.first same) =
      subst
        (λ (x : List Kind × ParamRoute H).
          Among (record { matched_routes = r.method_routes; params = bound })
            (cons_match x.1 (bind x.0 path params) (scan routes path params)))
        same (rw e (Among.first refl))
  Registered-scan ks path params bound e ((ks', r') ∷ routes) r (Among.later h) =
      behind (bind ks' path params) (Registered-scan ks path params bound e routes r h)
    where
      behind :
          {m : RouteMatch H} (o : Option Params)
          → Among m (scan routes path params)
          → Among m (cons_match r' o (scan routes path params))
      behind none h = h
      behind (some q) h = Among.later h
