-- ===== src/Httpserver/Router/Scan.antt =====
-- The search in the tree of routes against a scan of all routes that it holds.
use wbsv.Common.{
  ◌≡◌, refl, true, false, Option, none, some, List, [], ◌∷◌, ◌++◌, if◌then◌else◌, Bytes, bytes_eq,
}
use wbsv.Httpserver.Router.{
  slash, node, RouteMatch, join, terminal_matches, ParamRoute, put, RouteEdges, RouteNode, Params,
}
use wbsv.GoText.{join}

-- A segment of a route, for one of the children of a node.
pub data Kind : Type 0 where
  literal : Bytes → Kind
  param : Bytes → Kind
  wildcard : Bytes → Kind

-- What a route binds on a path: each literal is the segment itself, a parameter takes one segment, a
-- wildcard takes all that is left, which may be nothing.
unfoldable pub bind : List Kind → List Bytes → Params → Option Params
bind [] [] params = some params
bind [] (s ∷ ss) params = none
bind (literal l ∷ ks) [] params = none
bind (literal l ∷ ks) (s ∷ ss) params =
    let rest = bind ks ss params in if bytes_eq l s then rest else none
bind (param name ∷ ks) [] params = none
bind (param name ∷ ks) (s ∷ ss) params = bind ks ss (put name s params)
bind (wildcard name ∷ ks) ss params = bind ks [] (put name (join slash ss) params)

module _ {ℓ} {H : Type ℓ} where
  abbrev pub cons_match : ParamRoute H → Option Params → List (RouteMatch H) → List (RouteMatch H)
  cons_match r none ms = ms
  cons_match r (some params) ms = record { matched_routes = r.method_routes; params = params } ∷ ms

  -- The matches of a list of routes, one by one.
  unfoldable pub scan : List (List Kind × ParamRoute H) → List Bytes → Params → List (RouteMatch H)
  unfolding bind
  scan [] path params = []
  scan ((ks, r) ∷ routes) path params = cons_match r (bind ks path params) (scan routes path params)

  unfoldable pub under : Kind → List (List Kind × ParamRoute H) → List (List Kind × ParamRoute H)
  under k [] = []
  under k ((ks, r) ∷ routes) = (k ∷ ks, r) ∷ under k routes

  unfoldable pub at_node : List (ParamRoute H) → List (List Kind × ParamRoute H)
  at_node [] = []
  at_node (r ∷ routes) = ([], r) ∷ at_node routes

-- All routes of a tree with what leads to them: first those that end at the node, then those of the
-- literals, of the parameters and of the wildcards.
unfoldable mutual
  unfolding under at_node

  pub listing {ℓ} : {H : Type ℓ} → RouteNode H → List (List Kind × ParamRoute H)
  listing (node routes ls ps ws) =
      at_node routes ++ list_edges literal ls ++ list_edges param ps ++ list_edges wildcard ws

  pub list_edges {ℓ} :
      {H : Type ℓ} → (Bytes → Kind) → RouteEdges H → List (List Kind × ParamRoute H)
  list_edges kind RouteEdges.no_edges = []
  list_edges kind (RouteEdges.edge key child rest) =
      under (kind key) (listing child) ++ list_edges kind rest

-- No child has this name.
abbrev pub Absent {ℓ} : {H : Type ℓ} → Bytes → RouteEdges H → Type 0
Absent key RouteEdges.no_edges = Unit
Absent key (RouteEdges.edge k child rest) = (bytes_eq k key ≡ false) × Absent key rest

-- The children of every node have different names.
unfoldable mutual
  pub IsKeyed {ℓ} : {H : Type ℓ} → RouteNode H → Type 0
  IsKeyed (node routes ls ps ws) = AreKeyed ls × AreKeyed ps × AreKeyed ws

  pub AreKeyed {ℓ} : {H : Type ℓ} → RouteEdges H → Type 0
  AreKeyed RouteEdges.no_edges = Unit
  AreKeyed (RouteEdges.edge key child rest) = Absent key rest × IsKeyed child × AreKeyed rest

module _ {ℓ} {H : Type ℓ} where
  pub scan-append :
      (a b : List (List Kind × ParamRoute H)) (path : List Bytes) (params : Params)
      → scan (a ++ b) path params ≡ scan a path params ++ scan b path params
  unfolding scan
  scan-append [] b path params = refl
  scan-append ((ks, r) ∷ a) b path params =
      rw (scan-append a b path params) (cons_match-append (bind ks path params))
    where
      cons_match-append :
          (o : Option Params)
          → cons_match r o (scan a path params ++ scan b path params)
            ≡ cons_match r o (scan a path params) ++ scan b path params
      cons_match-append none = refl
      cons_match-append (some q) = refl

  pub scan-at_node :
      (routes : List (ParamRoute H)) (params : Params)
      → scan (at_node routes) [] params ≡ terminal_matches routes params
  unfolding scan at_node terminal_matches
  scan-at_node [] params = refl
  scan-at_node (r ∷ routes) params = rw (scan-at_node routes params) refl

  pub scan-at_node_nil :
      (routes : List (ParamRoute H)) (s : Bytes) (ss : List Bytes) (params : Params)
      → scan (at_node routes) (s ∷ ss) params ≡ []
  unfolding scan at_node
  scan-at_node_nil [] s ss params = refl
  scan-at_node_nil (r ∷ routes) s ss params = scan-at_node_nil routes s ss params

  pub scan_literal :
      (l s : Bytes) (routes : List (List Kind × ParamRoute H)) (ss : List Bytes) (params : Params)
      → bytes_eq l s ≡ true
      → scan (under (literal l) routes) (s ∷ ss) params ≡ scan routes ss params
  unfolding scan under
  scan_literal l s [] ss params e = refl
  scan_literal l s ((ks, r) ∷ routes) ss params e = rw (e, scan_literal l s routes ss params e) refl

  pub scan_literal_other :
      (l s : Bytes) (routes : List (List Kind × ParamRoute H)) (ss : List Bytes) (params : Params)
      → bytes_eq l s ≡ false
      → scan (under (literal l) routes) (s ∷ ss) params ≡ []
  unfolding scan under
  scan_literal_other l s [] ss params e = refl
  scan_literal_other l s ((ks, r) ∷ routes) ss params e =
      rw (e, scan_literal_other l s routes ss params e) refl

  pub scan_literal_end :
      (l : Bytes) (routes : List (List Kind × ParamRoute H)) (params : Params)
      → scan (under (literal l) routes) [] params ≡ []
  unfolding scan under
  scan_literal_end l [] params = refl
  scan_literal_end l ((ks, r) ∷ routes) params = scan_literal_end l routes params

  pub scan_param :
      (name s : Bytes) (routes : List (List Kind × ParamRoute H)) (ss : List Bytes)
      (params : Params)
      → scan (under (param name) routes) (s ∷ ss) params ≡ scan routes ss (put name s params)
  unfolding scan under
  scan_param name s [] ss params = refl
  scan_param name s ((ks, r) ∷ routes) ss params = rw (scan_param name s routes ss params) refl

  pub scan_param_end :
      (name : Bytes) (routes : List (List Kind × ParamRoute H)) (params : Params)
      → scan (under (param name) routes) [] params ≡ []
  unfolding scan under
  scan_param_end name [] params = refl
  scan_param_end name ((ks, r) ∷ routes) params = scan_param_end name routes params

  pub scan_wildcard :
      (name : Bytes) (routes : List (List Kind × ParamRoute H)) (ss : List Bytes) (params : Params)
      → scan (under (wildcard name) routes) ss params
        ≡ scan routes [] (put name (join slash ss) params)
  unfolding scan under
  scan_wildcard name [] ss params = refl
  scan_wildcard name ((ks, r) ∷ routes) ss params = rw (scan_wildcard name routes ss params) refl
