-- ===== src/Httpserver/Router/Listed.antt =====
-- The search in the tree of routes finds what a scan of all routes finds, in the same order.
use wbsv.Common.{
  ◌≡◌, refl, sym, ◌∙◌, inl, inr, List, [], ◌∷◌, ◌++◌, append-nil, Bool-cases, Bytes, bytes_eq,
  bytes_eq_iff,
}
use wbsv.Httpserver.Router.{
  split_path, terminal_matches, slash, join, match_wildcards, put, match_params, match_literal,
  node, RouteNode, RouteEdges, ParamRoute, match_segments, Params,
}
use wbsv.Httpserver.Router.Scan.{
  scan_wildcard, scan_param, scan_literal, scan-at_node_nil, scan-at_node, scan_param_end,
  scan_literal_other, scan_literal_end, at_node, under, Absent, scan-append, IsKeyed, AreKeyed,
  scan, listing, list_edges, Kind,
}
use mathlib.Core.Path.{subst}
use wbsv.GoText.{join}

module _ {ℓ} {H : Type ℓ} where
  -- Literals do not fit at the end of the path, nor do parameters.
  scan_literals_end :
      (edges : RouteEdges H) (params : Params) → scan (list_edges Kind.literal edges) [] params ≡ []
  unfolding list_edges scan
  scan_literals_end RouteEdges.no_edges params = refl
  scan_literals_end (RouteEdges.edge key child rest) params =
      scan-append (under (Kind.literal key) (listing child)) (list_edges Kind.literal rest) []
        params
      ∙ rw (scan_literal_end key (listing child) params, scan_literals_end rest params) refl

  scan_params_end :
      (edges : RouteEdges H) (params : Params) → scan (list_edges Kind.param edges) [] params ≡ []
  unfolding list_edges scan
  scan_params_end RouteEdges.no_edges params = refl
  scan_params_end (RouteEdges.edge key child rest) params =
      scan-append (under (Kind.param key) (listing child)) (list_edges Kind.param rest) [] params
      ∙ rw (scan_param_end key (listing child) params, scan_params_end rest params) refl

  scan-Absent :
      (edges : RouteEdges H) (s : Bytes) (ss : List Bytes) (params : Params)
      → Absent s edges
      → scan (list_edges Kind.literal edges) (s ∷ ss) params ≡ []
  unfolding list_edges scan
  scan-Absent RouteEdges.no_edges s ss params h = refl
  scan-Absent (RouteEdges.edge key child rest) s ss params (e, h) =
      scan-append (under (Kind.literal key) (listing child)) (list_edges Kind.literal rest) (s ∷ ss)
        params
      ∙ rw (scan_literal_other key s (listing child) ss params e, scan-Absent rest s ss params h)
          refl

  -- The four groups of a listing, one after the other.
  scan_groups :
      (a b c d : List (List Kind × ParamRoute H)) (path : List Bytes) (params : Params)
      → scan (a ++ b ++ c ++ d) path params
        ≡ scan a path params ++ scan b path params ++ scan c path params ++ scan d path params
  scan_groups a b c d path params =
      rw
        (
          scan-append (a ++ b ++ c) d path params,
          scan-append (a ++ b) c path params,
          scan-append a b path params,
        )
        refl

mutual
  unfolding match_segments listing IsKeyed scan join

  match_segments-scan_from {ℓ} :
      {H : Type ℓ} (n : RouteNode H) (path : List Bytes) (params : Params)
      → IsKeyed n
      → match_segments n path params ≡ scan (listing n) path params
  match_segments-scan_from (node routes ls ps ws) [] params (kl, kp, kw) = sym (
      scan_groups (at_node routes) (list_edges Kind.literal ls) (list_edges Kind.param ps)
        (list_edges Kind.wildcard ws) [] params
      ∙ rw
          (
            scan-at_node routes params,
            scan_literals_end ls params,
            scan_params_end ps params,
            append-nil (terminal_matches routes params),
            append-nil (terminal_matches routes params),
            ← match_wildcards-scan ws [] params kw,
          )
          refl)
  match_segments-scan_from (node routes ls ps ws) (s ∷ ss) params (kl, kp, kw) = sym (
      scan_groups (at_node routes) (list_edges Kind.literal ls) (list_edges Kind.param ps)
        (list_edges Kind.wildcard ws) (s ∷ ss) params
      ∙ rw
          (
            scan-at_node_nil routes s ss params,
            match_literal-scan ls s ss params kl,
            match_params-scan ps s ss params kp,
            match_wildcards-scan ws (s ∷ ss) params kw,
          )
          refl)

  match_literal-scan {ℓ} :
      {H : Type ℓ} (edges : RouteEdges H) (s : Bytes) (ss : List Bytes) (params : Params)
      → AreKeyed edges
      → match_literal edges s ss params ≡ scan (list_edges Kind.literal edges) (s ∷ ss) params
  match_literal-scan RouteEdges.no_edges s ss params k = refl
  match_literal-scan (RouteEdges.edge key child rest) s ss params (a, kc, kr) = sym (
      scan-append (under (Kind.literal key) (listing child)) (list_edges Kind.literal rest) (s ∷ ss)
        params
      ∙ elim (Bool-cases (bytes_eq key s)) [
        | inl same ↦
            let fit = (bytes_eq_iff key s).0 same in
            rw
              (
                same,
                scan_literal key s (listing child) ss params same,
                scan-Absent rest s ss params (subst (λ x. Absent x rest) fit a),
                append-nil (scan (listing child) ss params),
                match_segments-scan_from child ss params kc,
              )
              refl
        | inr other ↦
            rw
              (
                other,
                scan_literal_other key s (listing child) ss params other,
                match_literal-scan rest s ss params kr,
              )
              refl
      ])

  match_params-scan {ℓ} :
      {H : Type ℓ} (edges : RouteEdges H) (s : Bytes) (ss : List Bytes) (params : Params)
      → AreKeyed edges
      → match_params edges s ss params ≡ scan (list_edges Kind.param edges) (s ∷ ss) params
  match_params-scan RouteEdges.no_edges s ss params k = refl
  match_params-scan (RouteEdges.edge name child rest) s ss params (a, kc, kr) = sym (
      scan-append (under (Kind.param name) (listing child)) (list_edges Kind.param rest) (s ∷ ss)
        params
      ∙ rw
          (
            scan_param name s (listing child) ss params,
            match_segments-scan_from child ss (put name s params) kc,
            match_params-scan rest s ss params kr,
          )
          refl)

  match_wildcards-scan {ℓ} :
      {H : Type ℓ} (edges : RouteEdges H) (path : List Bytes) (params : Params)
      → AreKeyed edges
      → match_wildcards edges (join slash path) params
        ≡ scan (list_edges Kind.wildcard edges) path params
  match_wildcards-scan RouteEdges.no_edges path params k = refl
  match_wildcards-scan (RouteEdges.edge name child rest) path params (a, kc, kr) = sym (
      scan-append (under (Kind.wildcard name) (listing child)) (list_edges Kind.wildcard rest) path
        params
      ∙ rw
          (
            scan_wildcard name (listing child) path params,
            match_segments-scan_from child [] (put name (join slash path) params) kc,
            match_wildcards-scan rest path params kr,
          )
          refl)

-- `match`, for a tree whose nodes do not have two children of one name: the matches of a path are
-- those that a scan of all routes of the tree finds, with the same parameters and in the order of the
-- listing: at each node first the routes that end there, then literals, parameters, wildcards.
pub match_segments-scan {ℓ} :
    {H : Type ℓ} (n : RouteNode H) (path : Bytes)
    → IsKeyed n
    → match_segments n (split_path path) [] ≡ scan (listing n) (split_path path) []
match_segments-scan n path k = match_segments-scan_from n (split_path path) [] k
