-- ===== src/Httpserver/Router/Insert.antt =====
-- What a new route changes in the tree of routes.
use wbsv.Common.{
  ◌≡◌, sym, inl, inr, true, false, not, List, [], ◌∷◌, ◌++◌, arith, if◌then◌else◌, Bool-cases,
  Bytes, bytes_eq, bytes_eq_iff,
}
use wbsv.Httpserver.Router.{
  empty_node, node, RouteEdges, RouteNode, ParamRoute, is_empty, insert, RouteSegment, insert_at,
  at_child,
}
use wbsv.Httpserver.Router.Scan.{AreKeyed, Absent, IsKeyed, Kind}
use wbsv.Http1.Header.{is_empty}

-- Where the segments of a route lead; a segment without any name leads nowhere.
unfoldable pub kinds : List RouteSegment → List Kind
kinds [] = []
kinds (s ∷ ss) =
    let rest = kinds ss in
    if not (is_empty s.literal)
    then Kind.literal s.literal ∷ rest
    else if not (is_empty s.param_name)
    then Kind.param s.param_name ∷ rest
    else if not (is_empty s.wildcard_name)
    then Kind.wildcard s.wildcard_name ∷ rest
    else rest

-- `x` is one of the members.
pub data Among {ℓ} {A : Type ℓ} (x : A) : List A → Type ℓ where
  first : {y : A} {ys : List A} → x ≡ y → Among x (y ∷ ys)
  later : {y : A} {ys : List A} → Among x ys → Among x (y ∷ ys)

pub bytes_eq_flip : (a b : Bytes) → bytes_eq a b ≡ false → bytes_eq b a ≡ false
bytes_eq_flip a b h = elim (Bool-cases (bytes_eq b a)) [
  | inl same ↦
      let back : bytes_eq a b ≡ true = (bytes_eq_iff a b).1 (sym ((bytes_eq_iff b a).0 same)) in
      ground (arith, back, h)
  | inr other ↦ other
]

module _ {ℓ} {H : Type ℓ} where
  at_child-Absent :
      (key name : Bytes) (change : RouteNode H → RouteNode H) (edges : RouteEdges H)
      → bytes_eq name key ≡ false
      → Absent key edges
      → Absent key (at_child name change edges)
  unfolding at_child
  at_child-Absent key name change RouteEdges.no_edges e h = (e, tt)
  at_child-Absent key name change (RouteEdges.edge k child rest) e (f, h) =
      elim (Bool-cases (bytes_eq k name)) [
        | inl same ↦ rw same (f, h)
        | inr other ↦ rw other (f, at_child-Absent key name change rest e h)
      ]

  at_child-AreKeyed :
      (name : Bytes) (change : RouteNode H → RouteNode H) (edges : RouteEdges H)
      → ((n : RouteNode H) → IsKeyed n → IsKeyed (change n))
      → AreKeyed edges
      → AreKeyed (at_child name change edges)
  unfolding at_child IsKeyed
  at_child-AreKeyed name change RouteEdges.no_edges keeps k =
      (tt, keeps empty_node (tt, tt, tt), tt)
  at_child-AreKeyed name change (RouteEdges.edge key child rest) keeps (a, kc, kr) =
      elim (Bool-cases (bytes_eq key name)) [
        | inl same ↦ rw same (a, keeps child kc, kr)
        | inr other ↦ rw other (
          at_child-Absent key name change rest (bytes_eq_flip key name other) a,
          kc,
          at_child-AreKeyed name change rest keeps kr,
        )
      ]

  insert_at-IsKeyed :
      (route : ParamRoute H) (segments : List RouteSegment) (n : RouteNode H)
      → IsKeyed n
      → IsKeyed (insert_at route segments n)
  unfolding insert_at IsKeyed
  insert_at-IsKeyed route [] (node routes ls ps ws) k = k
  insert_at-IsKeyed route (s ∷ ss) (node routes ls ps ws) (kl, kp, kw) =
      let below = insert_at-IsKeyed route ss in
      elim (Bool-cases (is_empty s.literal)) [
        | inr is_literal ↦
            rw is_literal (at_child-AreKeyed s.literal (insert_at route ss) ls below kl, kp, kw)
        | inl no_literal ↦ elim (Bool-cases (is_empty s.param_name)) [
          | inr is_param ↦
              rw (no_literal, is_param)
                (kl, at_child-AreKeyed s.param_name (insert_at route ss) ps below kp, kw)
          | inl no_param ↦ elim (Bool-cases (is_empty s.wildcard_name)) [
            | inr is_wildcard ↦
                rw (no_literal, no_param, is_wildcard)
                  (kl, kp, at_child-AreKeyed s.wildcard_name (insert_at route ss) ws below kw)
            | inl unnamed ↦
                rw (no_literal, no_param, unnamed) (below (node routes ls ps ws) (kl, kp, kw))
          ]
        ]
      ]

-- Inserting a route keeps the names of each node's children apart.
pub insert-IsKeyed {ℓ} :
    {H : Type ℓ} (route : ParamRoute H) (n : RouteNode H) → IsKeyed n → IsKeyed (insert route n)
unfolding insert
insert-IsKeyed route n k = insert_at-IsKeyed route route.segments n k

module _ {ℓ} {A : Type ℓ} where
  pub Among-append_left : (x : A) (xs ys : List A) → Among x xs → Among x (xs ++ ys)
  Among-append_left x [] ys h = elim h [ ]
  Among-append_left x (y ∷ xs) ys (Among.first e) = Among.first e
  Among-append_left x (y ∷ xs) ys (Among.later h) = Among.later (Among-append_left x xs ys h)

  pub Among-append_right : (x : A) (xs ys : List A) → Among x ys → Among x (xs ++ ys)
  Among-append_right x [] ys h = h
  Among-append_right x (y ∷ xs) ys h = Among.later (Among-append_right x xs ys h)
